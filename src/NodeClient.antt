-- ===== src/NodeClient.antt =====
-- core/ethwebsocket.go and core/node_ws.go: the node's client. Its subscriptions retry, its two
-- handlers take the messages of a connection that EstablishConn builds.
pub mod Retries
pub mod Heads
pub mod Resubscribes
pub mod Establishes
use dex_executorgo.Prelude.{
  ℕ, zero, suc, ◌*◌, Bool, true, false, Option, none, some, List, [], ◌∷◌, ◌++◌, if◌then◌else◌,
}
use dex_executorgo.Prelude.Int.{pos}
use dex_executorgo.Go.Text.{Text, lit, text_eq, contains}
use dex_executorgo.Go.Float.{bits}
use dex_executorgo.Go.Outcome.{Outcome, returns, panics, blocks, ◌>>=◌}
use dex_executorgo.Types.{WsRequest, PendingTx, HeadRsp}
use dex_executorgo.Window.{push_window}
use dex_executorgo.Socket.Config.{
  Handle, WsConfig, second, new_ws_builder_with_read_timeout, proxy_url, ws_url, proto_handle_func,
  auto_reconnect, post_reconnect_success,
}
use dex_executorgo.Socket.Conn.{WsConn, Effect, new_ws, subscribe}
use dex_executorgo.Socket.Dial.{Network, connect}
use dex_executorgo.Socket.Reconnect.{Peer}

-- The fields that are not clients, channels or contexts.
pub record NodeClient : Type 0 where
  pub rpc_url : Text
  pub ws_endpoint : Text  -- WsUrl
  pub header_ws_list : List HeadRsp

pub data Subscription : Type 0 where
  full_pending_transactions new_heads : Subscription

-- The log lines and the pauses.
pub data Note : Type 0 where
  logs_error : Subscription → Text → Note
  logs_success : Subscription → Note
  pauses : ℕ → Note

-- SubscribeFullPendingTransactions and SubscribeNewHeads, which differ in the call they make only.
-- `answer n` is the error of the call number n. The function calls itself after an error and then
-- goes on to its last line. `none` stands for more calls than the fuel.
unfoldable pub subscribe_from : ℕ → Subscription → (ℕ → Option Text) → ℕ → Option (List Note)
subscribe_from zero s answer n = none
subscribe_from (suc fuel) s answer n = elim (answer n) [
  | none ↦ some (logs_success s ∷ [])
  | some message ↦ elim (subscribe_from fuel s answer (suc n)) [
    | none ↦ none
    | some notes ↦
        some (logs_error s message ∷ pauses (second * 5) ∷ (notes ++ logs_success s ∷ []))
  ]
]

-- HeadsHandler: the client and the error.
unfoldable pub heads_handler :
    (Text → Option HeadRsp) → NodeClient → Text → NodeClient × Option Text
heads_handler unmarshal n d =
    if contains d (lit "invalid request") then (n, none) else elim (unmarshal d) [
      | none ↦ (n, some (lit "json unmarshal data err: " ++ d))
      | some rsp ↦
          if text_eq rsp.method []
          then (n, none)
          else (record n { header_ws_list = push_window n.header_ws_list rsp }, none)
    ]

-- PendingTxHandler: it decodes and drops the transaction. An error of the decoding has a text.
pub data Decoded : Type 0 where
  decodes : PendingTx → Decoded
  fails : Text → Decoded

unfoldable pub pending_tx_handler : (Text → Decoded) → Text → Option Text
pending_tx_handler unmarshal d =
    if contains d (lit "invalid request") then none else elim (unmarshal d) [
      | decodes tx ↦ none
      | fails message ↦ some (lit "json unmarshal data err: " ++ message)
    ]

-- The requests of SubPendingTx and SubBlockHeader.
abbrev pub pending_tx_request : WsRequest
pending_tx_request = record {
  id = pos 1;
  json_rpc = bits 0x4000000000000000;
  method = lit "eth_subscribe";
  params = lit "newPendingTransactions" ∷ lit "true" ∷ [];
}

abbrev pub block_header_request : WsRequest
block_header_request = record {
  id = pos 2;
  json_rpc = bits 0x4000000000000000;
  method = lit "eth_subscribe";
  params = lit "newHeads" ∷ [];
}

-- The configuration that EstablishConn builds; the hook sends the subscription again.
unfoldable pub conn_config : NodeClient → Text → Handle → Handle → WsConfig
unfolding new_ws_builder_with_read_timeout proxy_url ws_url proto_handle_func auto_reconnect
    post_reconnect_success
conn_config n proxy handler hook = post_reconnect_success hook (
    auto_reconnect (
      proto_handle_func handler
        (ws_url n.ws_endpoint (proxy_url proxy (new_ws_builder_with_read_timeout 5000000000)))))

-- What EstablishConn comes to: its two errors, or the connection that has the request in its queue.
pub data Established : Type 0 where
  no_connection : Established
  not_marshalled : WsConn → Established
  subscribed : WsConn → Established

abbrev subscribed_if : WsConn × Bool → Established
subscribed_if (ws, true) = subscribed ws
subscribed_if (ws, false) = not_marshalled ws

-- EstablishConn, with json.Marshal of the request and the error of the dial: what it comes to, and
-- what it did outside.
unfoldable pub establish_conn :
    (WsRequest → Option Text)
    → NodeClient
    → Text
    → Handle
    → Handle
    → WsRequest
    → Option Text
    → Outcome (Established × List Effect)
unfolding conn_config new_ws subscribe
establish_conn marshal n proxy handler hook request failure =
    let (made, effects) = new_ws (conn_config n proxy handler hook) failure in
    elim made [
      | none ↦ returns (no_connection, effects)
      | some ws ↦ subscribe (marshal request) ws >>= λ r. returns (subscribed_if r, effects)
    ]

-- The hook that EstablishConn gives to the connection: it subscribes again.
unfoldable pub resubscribing : (WsRequest → Option Text) → WsRequest → Peer → Peer
unfolding subscribe
resubscribing marshal request peer = record peer {
  post_reconnect = λ ws. subscribe (marshal request) ws >>= λ r. returns r.0;
}

-- EstablishConn on a network, SubPendingTx and SubBlockHeader: what EstablishConn comes to, of which
-- they only log an error.
module _ (marshal : WsRequest → Option Text) (net : Network) (n : NodeClient) (proxy : Text)
    (handler hook : Handle) where
  unfoldable pub establish_on : WsRequest → Outcome (Established × List Effect)
  unfolding connect establish_conn conn_config
  establish_on request = do
    failure ← connect net (conn_config n proxy handler hook)
    establish_conn marshal n proxy handler hook request failure

  unfoldable pub sub_pending_tx : Outcome (Established × List Effect)
  unfolding establish_on
  sub_pending_tx = establish_on pending_tx_request

  unfoldable pub sub_block_header : Outcome (Established × List Effect)
  unfolding establish_on
  sub_block_header = establish_on block_header_request
