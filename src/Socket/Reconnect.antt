-- ===== src/Socket/Reconnect.antt =====
-- Reconnect: up to a hundred attempts to connect, with a longer pause after each that fails.
pub mod Attempts
pub mod Exhausted
use dex_executorgo.Prelude.{
  ℕ, zero, suc, ◌+◌, ◌*◌, Bool, true, false, Option, none, some, List, [], ◌∷◌, ◌++◌, if◌then◌else◌,
}
use dex_executorgo.Go.Word.{mul_int64}
use dex_executorgo.Go.Text.{Text}
use dex_executorgo.Go.Chan.{Chan}
use dex_executorgo.Go.Outcome.{Outcome, Panic, returns, panics, blocks, ◌>>=◌}
use dex_executorgo.Socket.Config.{WsConfig}
use dex_executorgo.Socket.Conn.{
  WsConn, Effect, dials, sleeps, closes_conn, calls_hook, calls_post_hook, calls_error_handler,
  is_chan_close, send_message,
}
use dex_executorgo.Socket.Close.{Ended, close_ws}

-- What the outside does during a call of Reconnect: the error of the dial number n, if any, where
-- connect may panic on an address to bind that does not resolve; what PreReconnectHook makes of the
-- configuration (its error is only logged); the message of CustomSub; and what
-- PostReconnectSuccessHook does to the connection.
pub record Peer : Type 0 where
  pub dial : ℕ → Outcome (Option Text)
  pub pre_reconnect : WsConfig → ℕ → WsConfig
  pub custom_sub : Text
  pub post_reconnect : WsConn → Outcome WsConn

-- The loop's variables behind an iteration: the connection, what was done, and err, unless connect
-- panicked.
pub record Attempted : Type 0 where
  pub ws : WsConn
  pub effects : List Effect
  pub failure : Outcome (Option Text)

module _ (peer : Peer) where
  -- The call of the hook, if there is one.
  unfoldable pub before_attempt : ℕ → WsConn → WsConn × List Effect
  before_attempt retry ws = elim ws.config.pre_reconnect_hook [
    | none ↦ (ws, [])
    | some f ↦ (record ws { config = peer.pre_reconnect ws.config retry }, calls_hook retry ∷ [])
  ]

  -- The dial and what follows it in the loop's body: the break, or the pause and the next
  -- attempt.
  unfoldable pub after_dial :
      (WsConn → List Effect → Text → Attempted)
      → ℕ
      → List Effect
      → Outcome (Option Text)
      → WsConn × List Effect
      → Attempted
  after_dial again retry effects (returns none) (ws, hooked) = record {
    ws = record ws { connected = true };
    effects = effects ++ (hooked ++ dials ws.config.ws_url ∷ []);
    failure = returns none;
  }
  after_dial again retry effects (returns (some message)) (ws, hooked) =
      again ws
        (effects
          ++ (hooked
              ++ dials ws.config.ws_url
                ∷ sleeps (mul_int64 ws.config.reconnect_interval retry)
                ∷ []))
        message
  after_dial again retry effects (panics p) (ws, hooked) = record {
    ws = ws;
    effects = effects ++ hooked;
    failure = panics p;
  }
  after_dial again retry effects blocks (ws, hooked) = record {
    ws = ws;
    effects = effects ++ hooked;
    failure = blocks;
  }

  -- for retry := ...; retry <= 100; retry++, with the attempts that are left
  unfoldable pub retry_from : ℕ → ℕ → WsConn → List Effect → Option Text → Attempted
  retry_from zero retry ws effects failure = record {
    ws = ws;
    effects = effects;
    failure = returns failure;
  }
  retry_from (suc left) retry ws effects failure =
      after_dial (λ ws' done message. retry_from left (suc retry) ws' done (some message)) retry
        effects (peer.dial retry) (before_attempt retry ws)

  -- A failed reconnection: CloseWs, with the lock held by this call, and the error handler.
  unfoldable pub give_up : WsConn → List Effect → Ended
  give_up ws effects =
      let closing = close_ws ws in
      elim closing.outcome [
        | returns t ↦ elim closing.ws.config.error_handle_func [
          | none ↦ record {
            ws = closing.ws;
            effects = effects ++ closing.effects;
            outcome = returns tt;
          }
          | some f ↦ record {
            ws = closing.ws;
            effects = effects ++ closing.effects ++ calls_error_handler ∷ [];
            outcome = returns tt;
          }
        ]
        | panics p ↦ record {
          ws = closing.ws;
          effects = effects ++ closing.effects;
          outcome = panics p;
        }
        | blocks ↦ record {
          ws = closing.ws;
          effects = effects ++ closing.effects;
          outcome = blocks;
        }
      ]

  -- The lock is given back where the call returns or panics, and kept where it blocks.
  unfoldable pub unlocking : WsConn → List Effect → Outcome WsConn → Ended
  unlocking ws effects (returns ws') = record {
    ws = record ws' { lock_held = false };
    effects = effects;
    outcome = returns tt;
  }
  unlocking ws effects (panics p) = record {
    ws = record ws { lock_held = false };
    effects = effects;
    outcome = panics p;
  }
  unlocking ws effects blocks = record { ws = ws; effects = effects; outcome = blocks }

  -- A new connection: the message of CustomSub, or else the hook.
  unfoldable pub resubscribe : WsConn → List Effect → Ended
  unfolding unlocking
  resubscribe ws effects = elim ws.config.custom_sub [
    | some f ↦ unlocking ws effects (send_message peer.custom_sub ws)
    | none ↦ elim ws.config.post_reconnect_success_hook [
      | none ↦ unlocking ws effects (returns ws)
      | some f ↦ unlocking ws (effects ++ calls_post_hook ∷ []) (peer.post_reconnect ws)
    ]
  ]

  -- What follows the loop.
  unfoldable pub after_attempts : Attempted → Ended
  unfolding resubscribe
  after_attempts a = elim a.failure [
    | returns err ↦ elim err [
      | some message ↦ give_up a.ws a.effects
      | none ↦ resubscribe a.ws a.effects
    ]
    | panics p ↦ unlocking a.ws a.effects (panics p)
    | blocks ↦ unlocking a.ws a.effects blocks
  ]

  -- Reconnect
  unfoldable pub reconnect : WsConn → Ended
  reconnect ws =
      let (closed, ch) = is_chan_close ws.write_buffer_chan in
      let tested = record ws { lock_held = true; write_buffer_chan = ch; connected = false } in
      if ws.lock_held
      then record { ws = ws; effects = []; outcome = blocks }
      else if closed
      then record { ws = record ws { write_buffer_chan = ch }; effects = []; outcome = returns tt }
      else after_attempts (retry_from 100 1 tested (closes_conn ∷ []) none)
