-- ===== src/Socket/Reconnect/Exhausted.antt =====
-- Reconnect of core/websocket.go: what a call comes to.
use dex_executorgo.Prelude.{
  ℕ, suc, ◌+◌, ◌<◌, ◌≤◌, ◌*◌, length, length-append, ltb, ◌≡◌, refl, ap, sym, ◌∙◌, true, false,
  none, some, List, [], ◌∷◌, ◌++◌, arith,
}
use native.Mathlib.Nat.{mul-le-mul_left}
use mathlib.Core.List.{tail, append-nil}
use dex_executorgo.Go.Word.{mul_int64, mul_int64_exact, two63}
use dex_executorgo.Prelude.Int.{pos}
use dex_executorgo.Socket.Config.{Handle}
use dex_executorgo.Go.Text.{Text}
use dex_executorgo.Go.Chan.{Chan, send}
use dex_executorgo.Go.Outcome.{returns, blocks}
use dex_executorgo.Socket.Conn.{WsConn, Effect, dials, closes_conn, is_chan_close, send_message}
use dex_executorgo.Socket.Close.{close_ws}
use dex_executorgo.Socket.Reconnect.{
  Peer, unlocking, retry_from, give_up, resubscribe, after_attempts, reconnect,
}
use dex_executorgo.Socket.Reconnect.Attempts.{
  failed_attempts, failed_attempts-same, retry_from-succeeds, retry_from-fails,
}

up_to_hundred : (interval i : ℕ) → interval * 100 < two63 → i < 101 → interval * i < two63
up_to_hundred interval i small h =
    let most : interval * i ≤ interval * 100 = mul-le-mul_left interval (omega arith) in omega arith

-- The test of an open channel says no, and takes out the oldest value.
is_chan_close-open :
    (ch : Chan Text)
    → ch.closed ≡ false
    → is_chan_close ch ≡ (false, record ch { queue = tail ch.queue })
unfolding is_chan_close
is_chan_close-open ch h = ground arith

module _ (peer : Peer) (ws : WsConn) where
  -- The connection with which the attempts begin: the old one is closed, the lock is held, and the
  -- oldest message of the write queue is gone.
  abbrev pub begun : WsConn
  begun = record ws {
    lock_held = true;
    write_buffer_chan = record ws.write_buffer_chan { queue = tail ws.write_buffer_chan.queue };
    connected = false;
  }

  reconnect-open :
      ws.lock_held ≡ false
      → ws.write_buffer_chan.closed ≡ false
      → reconnect peer ws
        ≡ after_attempts peer (retry_from peer 100 1 begun (closes_conn ∷ []) none)
  unfolding reconnect
  reconnect-open free open_chan = rw (free, is_chan_close-open ws.write_buffer_chan open_chan)

  -- A holder of the lock blocks Reconnect and CloseWs.
  pub held_blocks :
      ws.lock_held ≡ true
      → ((reconnect peer ws).outcome ≡ blocks) × ((close_ws ws).outcome ≡ blocks)
  unfolding reconnect close_ws
  held_blocks held = (rw held, rw held)

  -- The first k dials fail.
  abbrev pub Fails : ℕ → Type 0
  Fails k = (i : ℕ) → i < k → (message : Text) × (peer.dial (1 + i) ≡ returns (some message))

  -- If fewer than a hundred dials fail before one succeeds, Reconnect goes on with resubscribe.
  pub reconnect-resubscribe :
      (k left : ℕ)
      → k + suc left ≡ 100
      → ws.lock_held ≡ false
      → ws.write_buffer_chan.closed ≡ false
      → ws.config.pre_reconnect_hook ≡ none
      → Fails k
      → peer.dial (1 + k) ≡ returns none
      → reconnect peer ws
        ≡ resubscribe peer
            (record begun { connected = true })
            (closes_conn
              ∷ (failed_attempts ws.config.ws_url (mul_int64 ws.config.reconnect_interval) 1 k
                  ++ dials ws.config.ws_url ∷ []))
  reconnect-resubscribe k left total free open_chan plain fails works =
      reconnect-open free open_chan
      ∙ ap (λ n. after_attempts peer (retry_from peer n 1 begun (closes_conn ∷ []) none))
          (sym total)
      ∙ ap (after_attempts peer)
          (retry_from-succeeds peer begun plain k left 1 (closes_conn ∷ []) none fails works)
      ∙ unfold after_attempts in refl

  -- What is sent once Reconnect has dialled: nothing, or the message of CustomSub.
  pub data Sends : List Text → Type 0 where
    sends_nothing :
        ws.config.custom_sub ≡ none → ws.config.post_reconnect_success_hook ≡ none → Sends []
    sends_custom : {f : Handle} → ws.config.custom_sub ≡ some f → Sends (peer.custom_sub ∷ [])

  -- The connection after a reconnection that has sent some messages.
  abbrev pub connected_again : List Text → WsConn
  connected_again sent = record ws {
    lock_held = false;
    write_buffer_chan = record ws.write_buffer_chan {
      queue = tail ws.write_buffer_chan.queue ++ sent;
    };
    connected = true;
  }

  resubscribe-connected_again :
      (effects : List Effect) {sent : List Text}
      → Sends sent
      → length (tail ws.write_buffer_chan.queue ++ sent) ≤ ws.write_buffer_chan.capacity
      → ws.write_buffer_chan.closed ≡ false
      → resubscribe peer (record begun { connected = true }) effects
        ≡ record { ws = connected_again sent; effects = effects; outcome = returns tt }
  unfolding resubscribe unlocking send_message send
  resubscribe-connected_again effects (sends_nothing no_sub no_hook) room open_chan =
      simp (no_sub, no_hook, resubscribe, append-nil (tail ws.write_buffer_chan.queue))
  resubscribe-connected_again effects (sends_custom sub) room open_chan =
      let open_room : ltb (length (tail ws.write_buffer_chan.queue)) ws.write_buffer_chan.capacity
          ≡ true =
        ground (arith, length-append (tail ws.write_buffer_chan.queue) (peer.custom_sub ∷ [])) in
      simp (sub, resubscribe, send_message, send, open_chan, open_room)

  -- If fewer than a hundred dials fail before one succeeds, Reconnect returns with a new connection
  -- and a free lock. It has closed the old one, dialled once more than the failures, and paused
  -- after each failure, n intervals after the one number n. The oldest message that waited in the
  -- write queue is lost, and the message of CustomSub, if that is set, waits behind the others. This
  -- holds of an open queue with room and a free lock, with no hook before dials, none after them
  -- unless CustomSub stands in for it, and a hundred intervals within 64 bits.
  pub reconnect-connects :
      (k left : ℕ) {sent : List Text}
      → k + suc left ≡ 100
      → ws.lock_held ≡ false
      → ws.write_buffer_chan.closed ≡ false
      → ws.config.pre_reconnect_hook ≡ none
      → Sends sent
      → length (tail ws.write_buffer_chan.queue ++ sent) ≤ ws.write_buffer_chan.capacity
      → ws.config.reconnect_interval * 100 < two63
      → Fails k
      → peer.dial (1 + k) ≡ returns none
      → reconnect peer ws ≡ record {
        ws = connected_again sent;
        effects =
            closes_conn
            ∷ (failed_attempts ws.config.ws_url (λ n. pos (ws.config.reconnect_interval * n)) 1 k
                ++ dials ws.config.ws_url ∷ []);
        outcome = returns tt;
      }
  reconnect-connects k left {sent} total free open_chan plain sends room small fails works =
      reconnect-resubscribe k left total free open_chan plain fails works
      ∙ resubscribe-connected_again _ sends room open_chan
      ∙ ap
          (λ l. record {
            ws = connected_again sent;
            effects = closes_conn ∷ (l ++ dials ws.config.ws_url ∷ []);
            outcome = returns tt;
          })
          (failed_attempts-same ws.config.ws_url (mul_int64 ws.config.reconnect_interval)
            (λ n. pos (ws.config.reconnect_interval * n)) 101 1 k
            (λ i h.
              mul_int64_exact ws.config.reconnect_interval i
                (up_to_hundred ws.config.reconnect_interval i small h))
            (omega arith))

  give_up_blocks :
      (held : WsConn) (effects : List Effect)
      → held.lock_held ≡ true
      → give_up peer held effects ≡ record { ws = held; effects = effects ++ []; outcome = blocks }
  unfolding give_up close_ws
  give_up_blocks held effects h = rw h

  -- If all hundred dials fail, Reconnect waits for ever: it calls CloseWs, which wants the lock
  -- that Reconnect holds itself. The lock stays held, and the error handler is not called. This
  -- holds of an open queue and a free lock, with no hook before dials.
  pub reconnect-deadlocks :
      ws.lock_held ≡ false
      → ws.write_buffer_chan.closed ≡ false
      → ws.config.pre_reconnect_hook ≡ none
      → Fails 100
      → reconnect peer ws ≡ record {
        ws = begun;
        effects =
            closes_conn
            ∷ failed_attempts ws.config.ws_url (mul_int64 ws.config.reconnect_interval) 1 100;
        outcome = blocks;
      }
  reconnect-deadlocks free open_chan plain fails =
      let (last, e) =
        retry_from-fails peer begun plain 100 1 (closes_conn ∷ []) none fails (omega arith) in
      reconnect-open free open_chan
      ∙ ap (after_attempts peer) e
      ∙ unfold after_attempts in
        give_up_blocks begun _ refl
        ∙ ap (λ l. record { ws = begun; effects = l; outcome = blocks }) (append-nil _)
