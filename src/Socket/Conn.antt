-- ===== src/Socket/Conn.antt =====
-- WsConn: the connection, its channels and its lock; connect, NewWs, isChanClose and the senders.
-- Dialling and closing are effects of gorilla/websocket, whose results are parameters.
use dex_executorgo.Prelude.{ℕ, Bool, true, false, Option, none, some, List, [], ◌∷◌, if◌then◌else◌}
use dex_executorgo.Prelude.Int.{ℤ, pos, ltb_ℤ}
use dex_executorgo.Go.Word.{mul_int64}
use dex_executorgo.Go.Text.{Text}
use dex_executorgo.Go.Chan.{Chan, make, send}
use dex_executorgo.Go.Outcome.{Outcome, returns, ◌>>=◌}
use dex_executorgo.Socket.Config.{WsConfig}

pub record WsConn : Type 0 where
  pub config : WsConfig
  pub connected : Bool  -- ws.c is an open connection
  pub write_buffer_chan : Chan Text
  pub ping_message_buffer_chan : Chan Text
  pub pong_message_buffer_chan : Chan Text
  pub close_message_buffer_chan : Chan Text
  pub close : Chan Bool
  pub lock_held : Bool  -- reConnectLock

-- What the code does outside the connection's own state.
pub data Effect : Type 0 where
  dials : Text → Effect
  sleeps : ℤ → Effect
  closes_conn : Effect
  starts_loops : Effect
  calls_hook : ℕ → Effect  -- PreReconnectHook, with the number of the attempt
  calls_post_hook : Effect
  calls_error_handler : Effect

-- isChanClose: whether the channel is closed and empty. The test receives: if a value is queued,
-- it is taken out and lost.
unfoldable pub is_chan_close {ℓ} : {A : Type ℓ} → Chan A → Bool × Chan A
is_chan_close ch = elim ch.queue [
  | v ∷ rest ↦ (false, record ch { queue = rest })
  | [] ↦ (ch.closed, ch)
]

-- NewWs behind Build, with the error of the dial, if any: a heartbeat slower than the read
-- deadline moves the deadline, and an error gives no connection.
unfoldable pub new_ws : WsConfig → Option Text → Option WsConn × List Effect
new_ws config failure =
    let adjusted = record config {
      read_dead_line_time =
          if ltb_ℤ config.read_dead_line_time (pos config.heartbeat_interval_time)
          then mul_int64 config.heartbeat_interval_time 2
          else config.read_dead_line_time;
    } in
    elim failure [
      | some message ↦ (none, dials config.ws_url ∷ [])
      | none ↦ (
        some (record {
          config = adjusted;
          connected = true;
          write_buffer_chan = make 10;
          ping_message_buffer_chan = make 10;
          pong_message_buffer_chan = make 10;
          close_message_buffer_chan = make 10;
          close = make 1;
          lock_held = false;
        }),
        dials config.ws_url ∷ starts_loops ∷ [],
      )
    ]

-- SendMessage, SendPingMessage, SendPongMessage and SendCloseMessage
unfoldable pub send_message : Text → WsConn → Outcome WsConn
send_message msg ws = do
  ch ← send msg ws.write_buffer_chan
  returns (record ws { write_buffer_chan = ch })

unfoldable pub send_ping_message : Text → WsConn → Outcome WsConn
send_ping_message msg ws = do
  ch ← send msg ws.ping_message_buffer_chan
  returns (record ws { ping_message_buffer_chan = ch })

unfoldable pub send_pong_message : Text → WsConn → Outcome WsConn
send_pong_message msg ws = do
  ch ← send msg ws.pong_message_buffer_chan
  returns (record ws { pong_message_buffer_chan = ch })

unfoldable pub send_close_message : Text → WsConn → Outcome WsConn
send_close_message msg ws = do
  ch ← send msg ws.close_message_buffer_chan
  returns (record ws { close_message_buffer_chan = ch })

-- Subscribe, with the event as json.Marshal gives it: `none` is its error, which is returned, and
-- nothing is sent.
unfoldable pub subscribe : Option Text → WsConn → Outcome (WsConn × Bool)
unfolding send_message
subscribe none ws = returns (ws, false)
subscribe (some payload) ws = do ws' ← send_message payload ws; returns (ws', true)

-- SendJsonMessage
unfoldable pub send_json_message : Option Text → WsConn → Outcome (WsConn × Bool)
unfolding send_message
send_json_message none ws = returns (ws, false)
send_json_message (some payload) ws = do ws' ← send_message payload ws; returns (ws', true)

-- Close: it closes the connection if the write queue is open.
unfoldable pub close_conn : WsConn → WsConn × List Effect
unfolding is_chan_close
close_conn ws =
    let (closed, ch) = is_chan_close ws.write_buffer_chan in
    let ws' = record ws { write_buffer_chan = ch } in
    if closed then (ws', []) else (record ws' { connected = false }, closes_conn ∷ [])
