-- ===== src/Tests/OfSocket.antt =====
-- Runs of core/websocket.go's model.
use dex_executorgo.Prelude.{
  ◌*◌, ℕ, zero, suc, ltb, ◌≡◌, ◌<◌, ◌+◌, refl, true, false, Option, none, some, [], ◌∷◌, ◌++◌,
  arith, if◌then◌else◌,
}
use dex_executorgo.Go.Text.{Text, lit}
use dex_executorgo.Go.Chan.{make}
use dex_executorgo.Go.Outcome.{Outcome, returns, panics, blocks, send_closed}
use dex_executorgo.Socket.Config.{
  handle, proto_handle_func, new_ws_builder_with_read_timeout, new_ws_builder, ws_url,
}
use dex_executorgo.Go.Word.{mul_int64}
use dex_executorgo.Prelude.Int.{pos}
use dex_executorgo.Socket.Conn.{WsConn, closes_conn, dials}
use dex_executorgo.Socket.Close.{close_ws}
use dex_executorgo.Socket.Close.Once.{IsOpen, IsClosed, close_ws-IsClosed, close_ws_twice}
use dex_executorgo.Socket.Reconnect.{Peer, reconnect}
use dex_executorgo.Socket.Reconnect.Attempts.{failed_attempts}
use dex_executorgo.Socket.Reconnect.Exhausted.{
  begun, connected_again, sends_nothing, reconnect-connects, reconnect-deadlocks,
}
use dex_executorgo.Socket.Receive.{
  text_message, other_message, frame, read_error, handles, ends, receive_message,
}
use dex_executorgo.Socket.Receive.Frames.{receive_message-ends}

-- A connection with two messages in its write queue.
abbrev ws : WsConn
ws = record {
  config = proto_handle_func (handle 1) (ws_url (lit "wss://node") new_ws_builder);
  connected = true;
  write_buffer_chan = record { queue = lit "sub" ∷ lit "ask" ∷ []; capacity = 10; closed = false };
  ping_message_buffer_chan = make 10;
  pong_message_buffer_chan = make 10;
  close_message_buffer_chan = make 10;
  close = make 1;
  lock_held = false;
}

-- The first two dials fail; nothing else is configured.
abbrev flaky_dial : ℕ → Outcome (Option Text)
flaky_dial n = returns (if ltb n 3 then some (lit "refused") else none)

abbrev flaky : Peer
flaky = record {
  dial = flaky_dial;
  pre_reconnect = λ c n. c;
  custom_sub = [];
  post_reconnect = λ w. returns w;
}

abbrev dead : Peer
dead = record flaky { dial = λ n. returns (some (lit "refused")) }

two_failures : (i : ℕ) → i < 2 → (message : Text) × (flaky_dial (1 + i) ≡ returns (some message))
two_failures zero h = (lit "refused", refl)
two_failures (suc zero) h = (lit "refused", refl)
two_failures (suc (suc i)) h = absurd (omega arith)

reconnect-connects_example : reconnect flaky ws ≡ record {
  ws = connected_again flaky ws [];
  effects =
      closes_conn
      ∷ (failed_attempts (lit "wss://node") (λ n. pos (10000000000 * n)) 1 2
          ++ dials (lit "wss://node") ∷ []);
  outcome = returns tt;
}
unfolding make proto_handle_func ws_url new_ws_builder new_ws_builder_with_read_timeout
reconnect-connects_example =
    reconnect-connects flaky ws 2 97 refl refl refl refl (sends_nothing refl refl) (omega arith)
      (omega arith) two_failures refl

reconnect-deadlocks_example : reconnect dead ws ≡ record {
  ws = begun dead ws;
  effects =
      closes_conn ∷ failed_attempts ws.config.ws_url (mul_int64 ws.config.reconnect_interval) 1 100;
  outcome = blocks;
}
unfolding make proto_handle_func ws_url new_ws_builder new_ws_builder_with_read_timeout
reconnect-deadlocks_example =
    reconnect-deadlocks dead ws refl refl refl (λ i h. (lit "refused", refl))

ws-IsOpen : IsOpen ws
unfolding make
ws-IsOpen = record {
  unlocked = refl;
  open_close = refl;
  open_write = refl;
  open_ping = refl;
  open_pong = refl;
  open_close_message = refl;
}

close_ws-IsClosed_example : ((close_ws ws).outcome ≡ returns tt) × IsClosed (close_ws ws).ws
close_ws-IsClosed_example = close_ws-IsClosed ws ws-IsOpen

close_ws_twice_example : (close_ws (close_ws ws).ws).outcome ≡ panics send_closed
close_ws_twice_example = close_ws_twice ws ws-IsOpen

receive_message-ends_example :
    receive_message flaky some ws (
      frame text_message (lit "a")
      ∷ frame other_message (lit "b")
      ∷ read_error (lit "EOF")
      ∷ frame text_message (lit "c")
      ∷ [])
    ≡ record { ws = ws; deliveries = handles (lit "a") ∷ []; next = ends }
unfolding make proto_handle_func ws_url new_ws_builder new_ws_builder_with_read_timeout
receive_message-ends_example =
    receive_message-ends flaky some ws ((text_message, lit "a") ∷ (other_message, lit "b") ∷ [])
      (lit "EOF") (frame text_message (lit "c") ∷ []) refl refl refl
