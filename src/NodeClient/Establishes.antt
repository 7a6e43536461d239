-- ===== src/NodeClient/Establishes.antt =====
-- EstablishConn of core/node_ws.go with connect of core/websocket.go: what it comes to.
use dex_executorgo.Prelude.{
  ℕ, ◌*◌, ◌≡◌, true, refl, ap, ◌∙◌, inl, inr, false, Option, none, some, List, [], ◌∷◌,
  Option-cases,
}
use dex_executorgo.Go.Text.{Text}
use dex_executorgo.Go.Chan.{make}
use dex_executorgo.Go.Outcome.{returns, ◌>>=◌}
use dex_executorgo.Types.{WsRequest}
use dex_executorgo.Socket.Config.{
  Handle, second, new_ws_builder_with_read_timeout, proxy_url, ws_url, proto_handle_func,
  auto_reconnect, post_reconnect_success,
}
use dex_executorgo.Socket.Conn.{WsConn, Effect, dials, starts_loops, new_ws, subscribe}
use dex_executorgo.Socket.Dial.{
  Proxy, from_environment, proxy_url_of, Dialer, Network, proxy_for, local_addr_for,
  compression_for, dialer_for, connect,
}
use dex_executorgo.NodeClient.{
  NodeClient, conn_config, Established, no_connection, not_marshalled, subscribed, establish_conn,
  establish_on,
}
use dex_executorgo.NodeClient.Resubscribes.{queued, establish_conn-queued}

-- The proxy that a configured text leads through.
pub data GoesThrough (net : Network) : Text → Proxy → Type 0 where
  no_text : GoesThrough net [] from_environment
  good_url :
      {c : ℕ} {cs : Text}
      → net.is_url (c ∷ cs) ≡ true
      → GoesThrough net (c ∷ cs) (proxy_url_of (c ∷ cs))
  bad_url :
      {c : ℕ} {cs : Text} → net.is_url (c ∷ cs) ≡ false → GoesThrough net (c ∷ cs) from_environment

proxy_for-GoesThrough :
    (net : Network) {text : Text} {via : Proxy}
    → GoesThrough net text via
    → proxy_for net text ≡ via
unfolding proxy_for
proxy_for-GoesThrough net no_text = refl
proxy_for-GoesThrough net (good_url e) = rw e refl
proxy_for-GoesThrough net (bad_url e) = rw e refl

module _ (marshal : WsRequest → Option Text) (net : Network) (n : NodeClient) (proxy : Text)
    (handler hook : Handle) (request : WsRequest) where
  -- The dialer of EstablishConn: thirty seconds for the handshake, any local address, and no
  -- compression.
  abbrev pub node_dialer : Proxy → Dialer
  node_dialer via = record {
    proxy = via;
    handshake_timeout = second * 30;
    local_addr = none;
    enable_compression = false;
  }

  -- A connection with nothing queued.
  abbrev pub idle : WsConn
  idle =
      let ws = queued n proxy handler hook [] in
      record ws { write_buffer_chan = record { queue = []; capacity = 10; closed = false } }

  abbrev pub with_request : Option Text → Established
  with_request none = not_marshalled idle
  with_request (some payload) = subscribed (queued n proxy handler hook payload)

  -- The result for the error of the dial.
  abbrev pub with_dial : Option Text → Established × List Effect
  with_dial (some message) = (no_connection, dials n.ws_endpoint ∷ [])
  with_dial none = (with_request (marshal request), dials n.ws_endpoint ∷ starts_loops ∷ [])

  connect-node_dialer :
      connect net (conn_config n proxy handler hook)
      ≡ returns (net.dial (node_dialer (proxy_for net proxy)) n.ws_endpoint [])
  unfolding connect dialer_for local_addr_for compression_for conn_config
      new_ws_builder_with_read_timeout proxy_url ws_url proto_handle_func auto_reconnect
      post_reconnect_success
  connect-node_dialer = refl

  establish_conn-refused :
      (message : Text)
      → establish_conn marshal n proxy handler hook request (some message)
        ≡ returns (no_connection, dials n.ws_endpoint ∷ [])
  unfolding establish_conn new_ws
  establish_conn-refused message = refl

  establish_conn-not_marshalled :
      marshal request ≡ none
      → establish_conn marshal n proxy handler hook request none
        ≡ returns (not_marshalled idle, dials n.ws_endpoint ∷ starts_loops ∷ [])
  unfolding establish_conn new_ws subscribe make conn_config new_ws_builder_with_read_timeout
      proxy_url ws_url proto_handle_func auto_reconnect post_reconnect_success
  establish_conn-not_marshalled text = rw text refl

  establish_conn-with_dial :
      (failure : Option Text)
      → establish_conn marshal n proxy handler hook request failure ≡ returns (with_dial failure)
  establish_conn-with_dial (some message) = establish_conn-refused message
  establish_conn-with_dial none = elim (Option-cases (marshal request)) [
    | inl e ↦ establish_conn-not_marshalled e ∙ rw e refl
    | inr (payload, e) ↦ establish_conn-queued marshal n proxy handler hook request e ∙ rw e refl
  ]

  -- EstablishConn never panics or waits. It dials the node's endpoint once, through the configured
  -- proxy if that is a URL and as the environment says if it is none or empty. If the dial fails
  -- there is no connection; else there is one, with its loops started and exactly the request in its
  -- write queue, or nothing in it if the request cannot be marshalled.
  pub establish_on-with_dial :
      {via : Proxy}
      → GoesThrough net proxy via
      → establish_on marshal net n proxy handler hook request
        ≡ returns (with_dial (net.dial (node_dialer via) n.ws_endpoint []))
  unfolding establish_on
  establish_on-with_dial through =
      ap (λ o. o >>= λ failure. establish_conn marshal n proxy handler hook request failure)
        connect-node_dialer
      ∙ establish_conn-with_dial (net.dial (node_dialer (proxy_for net proxy)) n.ws_endpoint [])
      ∙ ap (λ via. returns (with_dial (net.dial (node_dialer via) n.ws_endpoint [])))
          (proxy_for-GoesThrough net through)
