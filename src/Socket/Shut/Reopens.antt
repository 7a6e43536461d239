-- ===== src/Socket/Shut/Reopens.antt =====
-- CloseWs of core/websocket.go with messages waiting in the write queue.
use dex_executorgo.Prelude.{
  ◌≡◌, refl, ap, ◌∙◌, true, false, Option, none, some, List, [], ◌∷◌, arith,
}
use dex_executorgo.Go.Text.{Text}
use dex_executorgo.Go.Chan.{receive, send}
use dex_executorgo.Socket.Conn.{WsConn, Effect, dials, closes_conn, send_message, is_chan_close}
use dex_executorgo.Socket.Close.{close_ws}
use dex_executorgo.Socket.Close.Once.{IsOpen, close_ws-closed_conn}
use dex_executorgo.Socket.Reconnect.{
  Peer, before_attempt, after_dial, retry_from, after_attempts, resubscribe, unlocking, reconnect,
}
use dex_executorgo.Socket.Config.{Handle, WsConfig}
use dex_executorgo.Go.Outcome.{returns, panics, send_closed}
use dex_executorgo.Socket.Write.{
  Fate, goes_on, stuck, fate_of, write_case, Wire, check_err, on_receive, turn,
}

-- What Reconnect calls once it has dialled, and how the turn ends then on a closed queue: nothing, or
-- CustomSub's message is sent, or a hook that sends.
pub data Afterwards (peer : Peer) (ws : WsConn) : Fate → Type 0 where
  calls_nothing :
      ws.config.custom_sub ≡ none
      → ws.config.post_reconnect_success_hook ≡ none
      → Afterwards peer ws goes_on
  calls_custom_sub :
      {f : Handle} → ws.config.custom_sub ≡ some f → Afterwards peer ws (stuck (panics send_closed))
  calls_hook :
      {f : Handle}
      → ws.config.custom_sub ≡ none
      → ws.config.post_reconnect_success_hook ≡ some f
      → ((w : WsConn)
          → w.write_buffer_chan.closed ≡ true
          → peer.post_reconnect w ≡ panics send_closed)
      → Afterwards peer ws (stuck (panics send_closed))

-- Only the configuration matters.
same_calls :
    {peer : Peer} {ws ws' : WsConn} {fate : Fate}
    → Afterwards peer ws fate
    → ws'.config ≡ ws.config
    → Afterwards peer ws' fate
same_calls {peer} (calls_nothing no_sub no_hook) same =
    calls_nothing (ap (λ (c : WsConfig). c.custom_sub) same ∙ no_sub)
      (ap (λ (c : WsConfig). c.post_reconnect_success_hook) same ∙ no_hook)
same_calls {peer} (calls_custom_sub sub) same =
    calls_custom_sub (ap (λ (c : WsConfig). c.custom_sub) same ∙ sub)
same_calls {peer} (calls_hook no_sub hook sends) same =
    calls_hook (ap (λ (c : WsConfig). c.custom_sub) same ∙ no_sub)
      (ap (λ (c : WsConfig). c.post_reconnect_success_hook) same ∙ hook) sends

-- The connection that Reconnect dials for, behind its test of a queue with a message in it.
abbrev dialled : WsConn → List Text → WsConn
dialled ws rest = record ws {
  lock_held = true;
  write_buffer_chan = record ws.write_buffer_chan { queue = rest };
  connected = true;
}

-- The test for a closed queue says no as long as a message is left, and Reconnect dials.
reconnect-leftover :
    (peer : Peer) (ws : WsConn) (m : Text) (rest : List Text)
    → ws.lock_held ≡ false
    → ws.write_buffer_chan.queue ≡ m ∷ rest
    → ws.config.pre_reconnect_hook ≡ none
    → peer.dial 1 ≡ returns none
    → reconnect peer ws
      ≡ resubscribe peer (dialled ws rest) (closes_conn ∷ dials ws.config.ws_url ∷ [])
unfolding reconnect is_chan_close retry_from before_attempt after_dial after_attempts
reconnect-leftover peer ws m rest free queue no_hook works = ground arith

resubscribe-closed :
    (peer : Peer) (ws : WsConn) (effects : List Effect) {fate : Fate}
    → Afterwards peer ws fate
    → ws.write_buffer_chan.closed ≡ true
    → ws.connected ≡ true
    → ((resubscribe peer ws effects).ws.connected ≡ true)
      × (fate_of (resubscribe peer ws effects).outcome ≡ fate)
unfolding resubscribe unlocking send_message send
resubscribe-closed peer ws effects (calls_nothing no_sub no_hook) closed up =
    simp (no_sub, no_hook, resubscribe) (up, refl)
resubscribe-closed peer ws effects (calls_custom_sub sub) closed up =
    simp (sub, resubscribe, send_message, send, closed) (up, refl)
resubscribe-closed peer ws effects (calls_hook no_sub hook sends) closed up =
    simp (no_sub, hook, resubscribe, sends ws closed) (up, refl)

reconnect-reopens :
    (peer : Peer) (ws : WsConn) (m : Text) (rest : List Text) {fate : Fate}
    → ws.lock_held ≡ false
    → ws.write_buffer_chan.closed ≡ true
    → ws.write_buffer_chan.queue ≡ m ∷ rest
    → ws.config.pre_reconnect_hook ≡ none
    → peer.dial 1 ≡ returns none
    → Afterwards peer ws fate
    → ((reconnect peer ws).ws.connected ≡ true) × (fate_of (reconnect peer ws).outcome ≡ fate)
reconnect-reopens peer ws m rest free closed queue no_hook works calls =
    rw (reconnect-leftover peer ws m rest free queue no_hook works)
      (resubscribe-closed peer (dialled ws rest) _ (same_calls calls refl) closed refl)

-- If two messages wait in the write queue when CloseWs is called, and no hook is set that is called
-- before dials, the loop can take the first, fail to write it, and reconnect, since the test for a
-- closed queue finds the second: the closed connection is dialled again and, if that dial works, is
-- open. The loop then goes on if nothing is set that sends after a dial; CustomSub, or a hook that
-- panics on a closed queue, as that of EstablishConn does, ends the program.
pub close_ws-reopens :
    (peer : Peer) (wire : Wire) (ws : WsConn) (err : Option Text) (first next : Text)
    (rest : List Text) {message : Text} {fate : Fate}
    → IsOpen ws
    → ws.write_buffer_chan.queue ≡ first ∷ next ∷ rest
    → ws.config.pre_reconnect_hook ≡ none
    → Afterwards peer ws fate
    → wire.write 0 ≡ some message
    → peer.dial 1 ≡ returns none
    → ((turn peer wire (record { ws = (close_ws ws).ws; err = err }) write_case).writer.ws.connected
        ≡ true)
      × ((turn peer wire (record { ws = (close_ws ws).ws; err = err }) write_case).fate ≡ fate)
unfolding turn on_receive receive check_err
close_ws-reopens peer wire ws err first next rest o queue no_hook calls fails works =
    rw (close_ws-closed_conn ws o) (
      rw (queue, turn)
        (rw (fails, check_err)
          (reconnect-reopens peer _ next rest refl refl refl no_hook works
            (same_calls calls refl))))
