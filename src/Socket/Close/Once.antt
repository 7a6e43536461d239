-- ===== src/Socket/Close/Once.antt =====
-- CloseWs of core/websocket.go on an open connection, and called again.
use dex_executorgo.Prelude.{◌≡◌, true, false, [], ◌∷◌, arith}
use dex_executorgo.Go.Chan.{make}
use dex_executorgo.Go.Outcome.{returns, panics, send_closed}
use dex_executorgo.Socket.Conn.{WsConn}
use dex_executorgo.Socket.Close.{close_ws}

-- All channels open, nobody in the lock, and no close signal queued.
pub record IsOpen (ws : WsConn) : Type 0 where
  pub unlocked : ws.lock_held ≡ false
  pub open_close : ws.close ≡ make 1
  pub open_write : ws.write_buffer_chan.closed ≡ false
  pub open_ping : ws.ping_message_buffer_chan.closed ≡ false
  pub open_pong : ws.pong_message_buffer_chan.closed ≡ false
  pub open_close_message : ws.close_message_buffer_chan.closed ≡ false

pub record IsClosed (ws : WsConn) : Type 0 where
  pub unlocked : ws.lock_held ≡ false
  pub disconnected : ws.connected ≡ false
  pub signalled : ws.close ≡ record { queue = true ∷ []; capacity = 1; closed = true }
  pub closed_write : ws.write_buffer_chan.closed ≡ true
  pub closed_ping : ws.ping_message_buffer_chan.closed ≡ true
  pub closed_pong : ws.pong_message_buffer_chan.closed ≡ true
  pub closed_close_message : ws.close_message_buffer_chan.closed ≡ true

-- CloseWs of an open connection returns, with the connection and all its channels closed, the lock
-- free, and one close signal queued for a goroutine to take.
pub close_ws-IsClosed :
    (ws : WsConn) → IsOpen ws → ((close_ws ws).outcome ≡ returns tt) × IsClosed (close_ws ws).ws
unfolding close_ws make
close_ws-IsClosed ws h = ground arith

close_ws-closed : (ws : WsConn) → IsClosed ws → (close_ws ws).outcome ≡ panics send_closed
unfolding close_ws
close_ws-closed ws h = ground arith

-- A second call before the signal was taken panics: its test for a closed channel takes the signal
-- and answers no, and the send that follows is to a closed channel.
pub close_ws_twice :
    (ws : WsConn) → IsOpen ws → (close_ws (close_ws ws).ws).outcome ≡ panics send_closed
close_ws_twice ws h = close_ws-closed (close_ws ws).ws (close_ws-IsClosed ws h).1

-- The connection that CloseWs leaves.
abbrev pub closed_conn : WsConn → WsConn
closed_conn ws = record ws {
  connected = false;
  lock_held = false;
  close = record { queue = true ∷ []; capacity = 1; closed = true };
  write_buffer_chan = record ws.write_buffer_chan { closed = true };
  ping_message_buffer_chan = record ws.ping_message_buffer_chan { closed = true };
  pong_message_buffer_chan = record ws.pong_message_buffer_chan { closed = true };
  close_message_buffer_chan = record ws.close_message_buffer_chan { closed = true };
}

pub close_ws-closed_conn : (ws : WsConn) → IsOpen ws → (close_ws ws).ws ≡ closed_conn ws
unfolding close_ws make
close_ws-closed_conn ws h = ground arith
