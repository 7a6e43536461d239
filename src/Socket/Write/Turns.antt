-- ===== src/Socket/Write/Turns.antt =====
-- One turn of writeRequest of core/websocket.go: the order of the messages in the write queue.
use dex_executorgo.Prelude.{
  ℕ, ◌≡◌, refl, ap, ◌∙◌, inl, inr, false, Option, none, List, [], ◌∷◌, ◌++◌, ltb, arith,
}
use dex_executorgo.Go.Text.{Text}
use dex_executorgo.Go.Chan.{Chan, receive}
use dex_executorgo.Go.Outcome.{Outcome, returns, panics, blocks, Outcome-cases}
use dex_executorgo.Socket.Conn.{WsConn}
use dex_executorgo.Socket.Reconnect.{Peer}
use dex_executorgo.Socket.Write.{
  Case, close_case, write_case, ping_case, pong_case, close_message_case, timer_case, Wrote,
  text_frame, ping_frame, pong_frame, close_frame, pauses, reconnecting, Writer, goes_on, Turn,
  Wire, message_of, check_err, on_receive, on_timer, turn,
}

-- The texts of the text frames.
abbrev pub texts : List Wrote → List Text
texts [] = []
texts (text_frame d ∷ rest) = d ∷ texts rest
texts (ping_frame d ∷ rest) = texts rest
texts (pong_frame d ∷ rest) = texts rest
texts (close_frame d ∷ rest) = texts rest
texts (pauses n ∷ rest) = texts rest
texts (reconnecting ∷ rest) = texts rest

pub texts-append : (xs ys : List Wrote) → texts (xs ++ ys) ≡ texts xs ++ texts ys
texts-append [] ys = refl
texts-append (text_frame d ∷ xs) ys = ap (◌∷◌ d) (texts-append xs ys)
texts-append (ping_frame d ∷ xs) ys = texts-append xs ys
texts-append (pong_frame d ∷ xs) ys = texts-append xs ys
texts-append (close_frame d ∷ xs) ys = texts-append xs ys
texts-append (pauses n ∷ xs) ys = texts-append xs ys
texts-append (reconnecting ∷ xs) ys = texts-append xs ys

-- No error is pending, no heartbeat is configured, and the write queue is open.
pub record IsQuiet (w : Writer) : Type 0 where
  pub no_error : w.err ≡ none
  pub no_heartbeat : w.ws.config.heartbeat_interval_time ≡ 0
  pub open_queue : w.ws.write_buffer_chan.closed ≡ false

no_beat : (interval : ℕ) → interval ≡ 0 → ltb 0 interval ≡ false
no_beat interval h = ground arith

module _ (peer : Peer) (wire : Wire) (ok : (n : ℕ) → wire.write n ≡ none) where
  -- A turn that keeps the order: what it wrote and what still waits is what waited before it.
  pub record Keeps (w : Writer) (t : Turn) : Type 0 where
    pub quiet : IsQuiet t.writer
    pub order : texts t.wrote ++ t.writer.ws.write_buffer_chan.queue ≡ w.ws.write_buffer_chan.queue

  check_err-none :
      (w : Writer) (wrote : List Wrote)
      → w.err ≡ none
      → check_err peer wire w wrote ≡ record { writer = w; wrote = wrote; fate = goes_on }
  unfolding check_err
  check_err-none w wrote h = ground arith

  wrote-Keeps :
      (w : Writer) (ws : WsConn) (frame : Wrote)
      → IsQuiet w
      → ws.config.heartbeat_interval_time ≡ w.ws.config.heartbeat_interval_time
      → ws.write_buffer_chan.closed ≡ w.ws.write_buffer_chan.closed
      → texts (frame ∷ []) ++ ws.write_buffer_chan.queue ≡ w.ws.write_buffer_chan.queue
      → Keeps w (check_err peer wire (record { ws = ws; err = wire.write 0 }) (frame ∷ []))
  wrote-Keeps w ws frame q same still order =
      rw (check_err-none (record { ws = ws; err = wire.write 0 }) (frame ∷ []) (ok 0)) record {
        quiet = record {
          no_error = ok 0;
          no_heartbeat = same ∙ q.no_heartbeat;
          open_queue = still ∙ q.open_queue;
        };
        order = order;
      }

  waits-Keeps :
      (w : Writer) → IsQuiet w → Keeps w (record { writer = w; wrote = []; fate = goes_on })
  waits-Keeps w q = record { quiet = q; order = refl }

  -- The case of a channel: the connection that it leaves behind, and the frame.
  on_receive-Keeps :
      (w : Writer) (put : Chan Text → WsConn) (frame : Text → Wrote)
      (o : Outcome (Option Text × Chan Text))
      → IsQuiet w
      → ((d : Option Text) (ch : Chan Text)
          → o ≡ returns (d, ch)
          → ((put ch).config.heartbeat_interval_time ≡ w.ws.config.heartbeat_interval_time)
            × ((put ch).write_buffer_chan.closed ≡ w.ws.write_buffer_chan.closed)
            × (texts (frame (message_of d) ∷ []) ++ (put ch).write_buffer_chan.queue
                ≡ w.ws.write_buffer_chan.queue))
      → Keeps w (on_receive peer wire w put frame o)
  unfolding on_receive
  on_receive-Keeps w put frame (returns (d, ch)) q h =
      let (same, still, order) = h d ch refl in
      wrote-Keeps w (put ch) (frame (message_of d)) q same still order
  on_receive-Keeps w put frame (panics p) q h = waits-Keeps w q
  on_receive-Keeps w put frame blocks q h = waits-Keeps w q

  receive-open :
      (ch ch' : Chan Text) (d : Option Text)
      → ch.closed ≡ false
      → receive ch ≡ returns (d, ch')
      → (ch'.closed ≡ ch.closed) × (message_of d ∷ ch'.queue ≡ ch.queue)
  unfolding receive
  receive-open ch ch' d h e = ground arith

  pub turn-Keeps : (w : Writer) (c : Case) → IsQuiet w → Keeps w (turn peer wire w c)
  unfolding turn
  turn-Keeps w close_case q = elim (Outcome-cases (receive w.ws.close)) [
    | inl ((v, ch), e) ↦
        rw (e, turn)
          record {
            quiet = record {
              no_error = q.no_error;
              no_heartbeat = q.no_heartbeat;
              open_queue = q.open_queue;
            };
            order = refl;
          }
    | inr (inl (p, e)) ↦ rw (e, turn) (waits-Keeps w q)
    | inr (inr e) ↦ rw (e, turn) (waits-Keeps w q)
  ]
  turn-Keeps w write_case q =
      on_receive-Keeps w (λ ch. record w.ws { write_buffer_chan = ch }) text_frame _ q
        (λ d ch e.
          let (still, order) = receive-open w.ws.write_buffer_chan ch d q.open_queue e in
          (refl, still, order))
  turn-Keeps w ping_case q =
      on_receive-Keeps w (λ ch. record w.ws { ping_message_buffer_chan = ch }) ping_frame _ q
        (λ d ch e. (refl, refl, refl))
  turn-Keeps w pong_case q =
      on_receive-Keeps w (λ ch. record w.ws { pong_message_buffer_chan = ch }) pong_frame _ q
        (λ d ch e. (refl, refl, refl))
  turn-Keeps w close_message_case q =
      on_receive-Keeps w (λ ch. record w.ws { close_message_buffer_chan = ch }) close_frame _ q
        (λ d ch e. (refl, refl, refl))
  turn-Keeps w timer_case q =
      unfold on_timer in
      rw (no_beat _ q.no_heartbeat, check_err-none w [] q.no_error) (waits-Keeps w q)
