-- ===== src/Socket/Write.antt =====
-- writeRequest: the loop that writes what is queued, and the heartbeat.
pub mod Turns
pub mod Queues
use dex_executorgo.Prelude.{
  ℕ, suc, Bool, true, false, ◌&&◌, not, Option, none, some, List, [], ◌∷◌, ◌++◌, ltb, if◌then◌else◌,
}
use dex_executorgo.Go.Text.{Text, contains}
use dex_executorgo.Go.Chan.{Chan, receive}
use dex_executorgo.Go.Outcome.{Outcome, returns, panics, blocks}
use dex_executorgo.Socket.Config.{WsConfig, second}
use dex_executorgo.Socket.Conn.{WsConn}
use dex_executorgo.Socket.Close.{Ended}
use dex_executorgo.Socket.Reconnect.{Peer, reconnect}

-- The case that the select takes.
pub data Case : Type 0 where
  close_case write_case ping_case pong_case close_message_case timer_case : Case

pub data Wrote : Type 0 where
  text_frame ping_frame pong_frame close_frame : Text → Wrote
  pauses : ℕ → Wrote
  reconnecting : Wrote

-- The loop's state: the connection and `err`, which lives across iterations.
pub record Writer : Type 0 where
  pub ws : WsConn
  pub err : Option Text

pub data Fate : Type 0 where
  goes_on ends : Fate
  stuck : Outcome (Unit {0}) → Fate

pub record Turn : Type 0 where
  pub writer : Writer
  pub wrote : List Wrote
  pub fate : Fate

-- The message of a receive: a closed channel gives the nil message.
abbrev pub message_of : Option Text → Text
message_of none = []
message_of (some d) = d

-- `write n` is the error of the write number n of the turn; `beat` and `beats` are what
-- HeartbeatData and HeartbeatDataStream return.
pub record Wire : Type 0 where
  pub write : ℕ → Option Text
  pub beat : Text
  pub beats : List Text

abbrev is_empty : Text → Bool
is_empty [] = true
is_empty (c ∷ cs) = false

-- The pause in front of Reconnect: errSleepInterval for an error that contains a non-empty errMsg.
abbrev pub pause_for : WsConfig → Text → ℕ
pause_for config message =
    if not (is_empty config.err_msg) && contains message config.err_msg
    then config.err_sleep_interval
    else second

-- How the loop goes on behind Reconnect.
abbrev pub fate_of : Outcome (Unit {0}) → Fate
fate_of (returns t) = goes_on
fate_of (panics p) = stuck (panics p)
fate_of blocks = stuck blocks

module _ (peer : Peer) (wire : Wire) where
  -- The test of err at the end of an iteration: the pause, and Reconnect, behind which err is kept.
  unfoldable pub check_err : Writer → List Wrote → Turn
  check_err w wrote = elim w.err [
    | none ↦ record { writer = w; wrote = wrote; fate = goes_on }
    | some message ↦
        let ended = reconnect peer w.ws in
        record {
          writer = record w { ws = ended.ws };
          wrote = wrote ++ (pauses (pause_for w.ws.config message) ∷ reconnecting ∷ []);
          fate = fate_of ended.outcome;
        }
  ]

  -- The writes of a stream of heartbeats; the last one's error is kept.
  unfoldable pub write_beats : ℕ → List Text → Option Text → List Wrote → List Wrote × Option Text
  write_beats n [] err wrote = (wrote, err)
  write_beats n (d ∷ ds) err wrote =
      write_beats (suc n) ds (wire.write n) (wrote ++ text_frame d ∷ [])

  -- The timer's case: without an interval nothing is written, and err stays as it was.
  unfoldable pub on_timer : Writer → Turn
  unfolding check_err write_beats
  on_timer w =
      if ltb 0 w.ws.config.heartbeat_interval_time
      then elim w.ws.config.heartbeat_data [
        | some f ↦ check_err (record w { err = wire.write 0 }) (text_frame wire.beat ∷ [])
        | none ↦ elim w.ws.config.heartbeat_data_stream [
          | some f ↦
              let (wrote, err) = write_beats 0 wire.beats w.err [] in
              check_err (record w { err = err }) wrote
          | none ↦ check_err w []
        ]
      ]
      else check_err w []

  -- A turn that waits for its channel: the select does not take that case.
  abbrev waits : Writer → Turn
  waits w = record { writer = w; wrote = []; fate = goes_on }

  abbrev writes : Writer → WsConn → Wrote → Turn
  writes w ws wrote = check_err (record { ws = ws; err = wire.write 0 }) (wrote ∷ [])

  -- The case of a channel of messages: what is received is written as a frame.
  unfoldable pub on_receive :
      Writer → (Chan Text → WsConn) → (Text → Wrote) → Outcome (Option Text × Chan Text) → Turn
  unfolding check_err
  on_receive w put frame (returns (d, ch)) = writes w (put ch) (frame (message_of d))
  on_receive w put frame (panics p) = waits w
  on_receive w put frame blocks = waits w

  -- One iteration.
  unfoldable pub turn : Writer → Case → Turn
  unfolding on_receive on_timer
  turn w close_case = elim (receive w.ws.close) [
    | returns (v, ch) ↦ record {
      writer = record w { ws = record w.ws { close = ch } };
      wrote = [];
      fate = ends;
    }
    | panics p ↦ waits w
    | blocks ↦ waits w
  ]
  turn w write_case =
      on_receive w (λ ch. record w.ws { write_buffer_chan = ch }) text_frame
        (receive w.ws.write_buffer_chan)
  turn w ping_case =
      on_receive w (λ ch. record w.ws { ping_message_buffer_chan = ch }) ping_frame
        (receive w.ws.ping_message_buffer_chan)
  turn w pong_case =
      on_receive w (λ ch. record w.ws { pong_message_buffer_chan = ch }) pong_frame
        (receive w.ws.pong_message_buffer_chan)
  turn w close_message_case =
      on_receive w (λ ch. record w.ws { close_message_buffer_chan = ch }) close_frame
        (receive w.ws.close_message_buffer_chan)
  turn w timer_case = on_timer w
