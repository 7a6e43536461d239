-- ===== src/Socket/Shut.antt =====
-- The two loops of core/websocket.go on a connection that CloseWs has closed.
pub mod Reads
pub mod Reopens
use dex_executorgo.Prelude.{
  ◌≡◌, refl, ap, ◌∙◌, inl, inr, Bool, true, false, Option, none, some, List, [], ◌∷◌, arith,
  Option-cases, Bool-cases, ltb, if◌then◌else◌,
}
use dex_executorgo.Go.Text.{Text}
use dex_executorgo.Go.Chan.{Chan, receive}
use dex_executorgo.Go.Outcome.{Outcome, returns, panics, blocks, Outcome-cases}
use dex_executorgo.Socket.Conn.{WsConn, is_chan_close}
use dex_executorgo.Socket.Close.{Ended, close_ws}
use dex_executorgo.Socket.Close.Once.{IsOpen, close_ws-IsClosed, close_ws-closed_conn}
use dex_executorgo.Socket.Reconnect.{
  Peer, before_attempt, after_dial, retry_from, after_attempts, resubscribe, unlocking, reconnect,
}
use dex_executorgo.Socket.Receive.{
  Incoming, read_error, Iteration, ends, iteration, payload, handled, after_reconnect, on_read,
}
use dex_executorgo.Socket.Receive
use dex_executorgo.Socket.Write.{
  Case, close_case, write_case, ping_case, pong_case, close_message_case, timer_case, Wrote,
  text_frame, ping_frame, pong_frame, close_frame, Writer, Wire, check_err, write_beats, on_receive,
  on_timer, turn,
}

-- Closed, with nothing left in the write queue.
pub record IsShut (ws : WsConn) : Type 0 where
  pub disconnected : ws.connected ≡ false
  pub closed_close : ws.close.closed ≡ true
  pub closed_write : ws.write_buffer_chan.closed ≡ true
  pub drained : ws.write_buffer_chan.queue ≡ []

-- What the loops do: a turn of writeRequest with what the wire says, an iteration of receiveMessage
-- from its select on, or the rest of one that waits in ReadMessage.
pub data Activity : Type 0 where
  takes : Wire → Case → Activity
  reads : Incoming → Activity
  returns_from_read : Incoming → Activity

module _ (peer : Peer) (decompress : Text → Option Text) where
  unfoldable pub activity : Writer → Activity → Writer
  activity w (takes wire c) = (turn peer wire w c).writer
  activity w (reads incoming) = record w { ws = (iteration peer decompress w.ws incoming).ws }
  activity w (returns_from_read incoming) = record w {
    ws = (on_read peer decompress w.ws incoming).ws;
  }

  unfoldable pub activities : Writer → List Activity → Writer
  unfolding activity
  activities w [] = w
  activities w (a ∷ rest) = activities (activity w a) rest

  pub reconnect-IsShut : (ws : WsConn) → IsShut ws → IsShut (reconnect peer ws).ws
  unfolding reconnect is_chan_close
  reconnect-IsShut ws h = ground arith

  check_err-IsShut :
      (wire : Wire) (w : Writer) (wrote : List Wrote)
      → IsShut w.ws
      → IsShut (check_err peer wire w wrote).writer.ws
  unfolding check_err
  check_err-IsShut wire w wrote h = elim (Option-cases w.err) [
    | inl e ↦ rw (e, check_err) h
    | inr (message, e) ↦ rw (e, check_err) (reconnect-IsShut w.ws h)
  ]

  on_receive-IsShut :
      (wire : Wire) (w : Writer) (put : Chan Text → WsConn) (frame : Text → Wrote)
      (o : Outcome (Option Text × Chan Text))
      → IsShut w.ws
      → ((d : Option Text) (ch : Chan Text) → o ≡ returns (d, ch) → IsShut (put ch))
      → IsShut (on_receive peer wire w put frame o).writer.ws
  unfolding on_receive
  on_receive-IsShut wire w put frame (returns (d, ch)) h each =
      check_err-IsShut wire (record { ws = put ch; err = wire.write 0 }) _ (each d ch refl)
  on_receive-IsShut wire w put frame (panics p) h each = h
  on_receive-IsShut wire w put frame blocks h each = h

  receive-closed :
      {A : Type 0} (ch ch' : Chan A) (d : Option A)
      → ch.closed ≡ true
      → receive ch ≡ returns (d, ch')
      → ch'.closed ≡ true
  unfolding receive
  receive-closed ch ch' d h e = ground arith

  receive-drained :
      (ch ch' : Chan Text) (d : Option Text)
      → ch.queue ≡ []
      → receive ch ≡ returns (d, ch')
      → ch'.queue ≡ []
  unfolding receive
  receive-drained ch ch' d h e = ground arith

  pub put_close :
      (ws : WsConn) (ch : Chan Bool) (d : Option Bool)
      → IsShut ws
      → receive ws.close ≡ returns (d, ch)
      → IsShut (record ws { close = ch })
  put_close ws ch d h e = record {
    disconnected = h.disconnected;
    closed_close = receive-closed ws.close ch d h.closed_close e;
    closed_write = h.closed_write;
    drained = h.drained;
  }

  -- The other channels do not matter.
  pub IsShut-same :
      {ws ws' : WsConn}
      → IsShut ws
      → ws'.connected ≡ ws.connected
      → ws'.close ≡ ws.close
      → ws'.write_buffer_chan ≡ ws.write_buffer_chan
      → IsShut ws'
  IsShut-same h a b c = record {
    disconnected = a ∙ h.disconnected;
    closed_close = ap (λ (ch : Chan Bool). ch.closed) b ∙ h.closed_close;
    closed_write = ap (λ (ch : Chan Text). ch.closed) c ∙ h.closed_write;
    drained = ap (λ (ch : Chan Text). ch.queue) c ∙ h.drained;
  }

  on_timer-IsShut :
      (wire : Wire) (w : Writer) → IsShut w.ws → IsShut (on_timer peer wire w).writer.ws
  on_timer-IsShut wire w h = elim (Bool-cases (ltb 0 w.ws.config.heartbeat_interval_time)) [
    | inr e ↦ unfold on_timer in rw e (check_err-IsShut wire w [] h)
    | inl e ↦
        unfold on_timer in
        rw e (elim (Option-cases w.ws.config.heartbeat_data) [
          | inr (f, e') ↦ rw e' (check_err-IsShut wire (record w { err = wire.write 0 }) _ h)
          | inl e' ↦ rw e' (elim (Option-cases w.ws.config.heartbeat_data_stream) [
            | inl e'' ↦ rw e'' (check_err-IsShut wire w [] h)
            | inr (f, e'') ↦ rw e'' (
                check_err-IsShut wire
                  (record w { err = (write_beats peer wire 0 wire.beats w.err []).1 })
                  (write_beats peer wire 0 wire.beats w.err []).0 h)
          ])
        ])
  ]

  pub turn-IsShut :
      (wire : Wire) (w : Writer) (c : Case) → IsShut w.ws → IsShut (turn peer wire w c).writer.ws
  unfolding turn
  turn-IsShut wire w close_case h = elim (Outcome-cases (receive w.ws.close)) [
    | inl ((v, ch), e) ↦ rw (e, turn) (put_close w.ws ch v h e)
    | inr (inl (p, e)) ↦ rw (e, turn) h
    | inr (inr e) ↦ rw (e, turn) h
  ]
  turn-IsShut wire w write_case h =
      on_receive-IsShut wire w (λ ch. record w.ws { write_buffer_chan = ch }) text_frame _ h
        (λ d ch e. record {
          disconnected = h.disconnected;
          closed_close = h.closed_close;
          closed_write = receive-closed w.ws.write_buffer_chan ch d h.closed_write e;
          drained = receive-drained w.ws.write_buffer_chan ch d h.drained e;
        })
  turn-IsShut wire w ping_case h =
      on_receive-IsShut wire w (λ ch. record w.ws { ping_message_buffer_chan = ch }) ping_frame _ h
        (λ d ch e. IsShut-same h refl refl refl)
  turn-IsShut wire w pong_case h =
      on_receive-IsShut wire w (λ ch. record w.ws { pong_message_buffer_chan = ch }) pong_frame _ h
        (λ d ch e. IsShut-same h refl refl refl)
  turn-IsShut wire w close_message_case h =
      on_receive-IsShut wire w (λ ch. record w.ws { close_message_buffer_chan = ch }) close_frame _
        h (λ d ch e. IsShut-same h refl refl refl)
  turn-IsShut wire w timer_case h = on_timer-IsShut wire w h
