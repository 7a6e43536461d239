-- ===== src/NodeClient/Resubscribes.antt =====
-- EstablishConn of core/node_ws.go with Reconnect: the subscription of a connection that is lost.
use dex_executorgo.Prelude.{
  ℕ, suc, ◌+◌, ◌≡◌, refl, subst, sym, true, false, Option, none, some, List, [], ◌∷◌,
}
use dex_executorgo.Go.Text.{Text}
use dex_executorgo.Go.Chan.{make, send}
use dex_executorgo.Go.Outcome.{returns}
use dex_executorgo.Types.{WsRequest}
use dex_executorgo.Socket.Config.{
  Handle, new_ws_builder_with_read_timeout, proxy_url, ws_url, proto_handle_func, auto_reconnect,
  post_reconnect_success,
}
use dex_executorgo.Socket.Conn.{
  WsConn, Effect, dials, starts_loops, new_ws, send_message, subscribe,
}
use dex_executorgo.Socket.Close.{Ended}
use dex_executorgo.Socket.Reconnect.{Peer, resubscribe, unlocking, reconnect}
use dex_executorgo.Socket.Reconnect.Exhausted.{Fails, begun, reconnect-resubscribe}
use dex_executorgo.NodeClient.{NodeClient, conn_config, establish_conn, subscribed, resubscribing}

-- The connection that EstablishConn makes: the request waits in the write queue.
abbrev pub queued : NodeClient → Text → Handle → Handle → Text → WsConn
queued n proxy handler hook payload = record {
  config = conn_config n proxy handler hook;
  connected = true;
  write_buffer_chan = record { queue = payload ∷ []; capacity = 10; closed = false };
  ping_message_buffer_chan = make 10;
  pong_message_buffer_chan = make 10;
  close_message_buffer_chan = make 10;
  close = make 1;
  lock_held = false;
}

module _ (marshal : WsRequest → Option Text) (n : NodeClient) (proxy : Text) (handler hook : Handle)
    (request : WsRequest) {payload : Text} (text : marshal request ≡ some payload) where
  pub establish_conn-queued :
      establish_conn marshal n proxy handler hook request none
      ≡ returns (
        subscribed (queued n proxy handler hook payload),
        dials n.ws_endpoint ∷ starts_loops ∷ [],
      )
  unfolding establish_conn new_ws subscribe send_message send make conn_config
      new_ws_builder_with_read_timeout proxy_url ws_url proto_handle_func auto_reconnect
      post_reconnect_success
  establish_conn-queued = rw text refl

  -- What a reconnection of that connection comes to.
  pub record IsResubscribed (e : Ended) : Type 0 where
    pub returned : e.outcome ≡ returns tt
    pub request_queued : e.ws.write_buffer_chan.queue ≡ payload ∷ []
    pub connected : e.ws.connected ≡ true
    pub unlocked : e.ws.lock_held ≡ false

  module _ (peer : Peer) where
    abbrev hooked : Peer
    hooked = resubscribing marshal request peer

    resubscribe-IsResubscribed :
        (effects : List Effect)
        → IsResubscribed (
            resubscribe hooked
              (record (begun hooked (queued n proxy handler hook payload)) { connected = true })
              effects)
    unfolding resubscribe unlocking resubscribing subscribe send_message send conn_config
        new_ws_builder_with_read_timeout proxy_url ws_url proto_handle_func auto_reconnect
        post_reconnect_success
    resubscribe-IsResubscribed effects =
        rw text record { returned = refl; request_queued = refl; connected = refl; unlocked = refl }

    same_conn :
        {ws : WsConn} {effects : List Effect}
        → establish_conn marshal n proxy handler hook request none
          ≡ returns (subscribed ws, effects)
        → queued n proxy handler hook payload ≡ ws
    same_conn made = cc (establish_conn-queued, made)

    -- If a connection that EstablishConn made is lost before its request is sent, and fewer than a
    -- hundred dials fail before one succeeds, Reconnect returns with a new connection and a free
    -- lock. It drops the request that waits in the write queue, but its hook queues it again, so
    -- that exactly one request waits.
    pub reconnect-resubscribes :
        {ws : WsConn} {effects : List Effect} (k left : ℕ)
        → establish_conn marshal n proxy handler hook request none
          ≡ returns (subscribed ws, effects)
        → k + suc left ≡ 100
        → Fails peer ws k
        → peer.dial (1 + k) ≡ returns none
        → IsResubscribed (reconnect (resubscribing marshal request peer) ws)
    unfolding resubscribing conn_config new_ws_builder_with_read_timeout proxy_url ws_url
        proto_handle_func auto_reconnect post_reconnect_success
    reconnect-resubscribes {ws} k left made total fails works =
        subst (λ w. IsResubscribed (reconnect hooked w)) (same_conn made)
          (subst IsResubscribed
            (sym (
              reconnect-resubscribe hooked (queued n proxy handler hook payload) k left total refl
                refl refl fails works))
            (resubscribe-IsResubscribed _))
