-- ===== src/Socket/Close.antt =====
-- CloseWs of core/websocket.go.
pub mod Once
use dex_executorgo.Prelude.{
  Bool, true, false, Option, none, some, List, [], ◌∷◌, ◌++◌, if◌then◌else◌,
}
use dex_executorgo.Go.Chan.{Chan, send, close}
use dex_executorgo.Go.Outcome.{Outcome, Panic, returns, panics, blocks, ◌>>=◌}
use dex_executorgo.Prelude.Int.{pos}
use dex_executorgo.Socket.Conn.{WsConn, Effect, closes_conn, sleeps, is_chan_close}
use dex_executorgo.Socket.Config.{second}

-- The state that a method leaves behind, what it did, and how it ended: a panic unlocks, and a
-- call that blocks leaves things as they are.
pub record Ended : Type 0 where
  pub ws : WsConn
  pub effects : List Effect
  pub outcome : Outcome (Unit {0})

-- The five closes.
unfoldable pub close_all : WsConn → Outcome WsConn
unfolding close
close_all ws = do
  a ← close ws.close
  b ← close ws.write_buffer_chan
  c ← close ws.close_message_buffer_chan
  d ← close ws.ping_message_buffer_chan
  e ← close ws.pong_message_buffer_chan
  returns (record ws {
    close = a;
    write_buffer_chan = b;
    close_message_buffer_chan = c;
    ping_message_buffer_chan = d;
    pong_message_buffer_chan = e;
  })

-- The select that sends true, with a second's patience if the channel is full.
unfoldable pub signal_close : WsConn → Outcome (WsConn × List Effect)
unfolding send
signal_close ws = elim (send true ws.close) [
  | returns ch ↦ returns (record ws { close = ch }, [])
  | panics p ↦ panics p
  | blocks ↦ returns (ws, sleeps (pos second) ∷ [])
]

-- The end of CloseWs: the connection is closed and the lock given back.
abbrev end_close : WsConn → List Effect → Ended
end_close ws effects = record {
  ws = record ws { connected = false; lock_held = false };
  effects = effects ++ closes_conn ∷ [];
  outcome = returns tt;
}

-- The body behind the lock, for a channel that is not found closed.
unfoldable pub close_open : WsConn → Ended
unfolding signal_close close_all
close_open ws = elim (signal_close ws) [
  | returns (ws', waited) ↦ elim (close_all ws') [
    | returns ws'' ↦ end_close ws'' waited
    | panics p ↦ record {
      ws = record ws' { lock_held = false };
      effects = waited;
      outcome = panics p;
    }
    | blocks ↦ record { ws = ws'; effects = waited; outcome = blocks }
  ]
  | panics p ↦ record { ws = record ws { lock_held = false }; effects = []; outcome = panics p }
  | blocks ↦ record { ws = ws; effects = []; outcome = blocks }
]

-- CloseWs. A lock that is held, by any goroutine, blocks it.
unfoldable pub close_ws : WsConn → Ended
unfolding is_chan_close close_open
close_ws ws =
    let locked = record ws { lock_held = true } in
    let (closed, ch) = is_chan_close ws.close in
    let tested = record locked { close = ch } in
    if ws.lock_held
    then record { ws = ws; effects = []; outcome = blocks }
    else if closed
    then end_close tested []
    else close_open tested
