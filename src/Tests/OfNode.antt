-- ===== src/Tests/OfNode.antt =====
-- Runs of config/config.go, core/ethwebsocket.go and core/node_ws.go.
use mathlib.Core.List.{filter_map}
use dex_executorgo.Prelude.{
  ℕ, zero, suc, ltb, ◌≡◌, ◌<◌, ◌+◌, ◌*◌, ◌⊎◌, refl, true, false, Option, none, some, List, [], ◌∷◌,
  drop, length, arith, if◌then◌else◌,
}
use dex_executorgo.Prelude.Int.{pos}
use dex_executorgo.Go.Text.{Text, lit}
use dex_executorgo.Go.Chan.{make, send}
use dex_executorgo.Go.Json.{null}
use dex_executorgo.Go.Outcome.{returns, panics, explicit}
use dex_executorgo.Go.Dict.{Dict}
use dex_executorgo.Types.{HeadRsp, WsRequest}
use dex_executorgo.Window.Bounds.{dropped}
use dex_executorgo.Config.{Pair, FileInfo, load_pairs_config}
use dex_executorgo.Config.Pairs.{Loaded, pairs_of, load_pairs_config_lem}
use dex_executorgo.Socket.Config.{
  handle, second, new_ws_builder_with_read_timeout, proxy_url, ws_url, proto_handle_func,
  auto_reconnect, post_reconnect_success,
}
use dex_executorgo.Socket.Conn.{WsConn, dials, starts_loops, new_ws, subscribe, send_message}
use dex_executorgo.Socket.Reconnect.{Peer, reconnect}
use dex_executorgo.NodeClient.{
  NodeClient, new_heads, logs_error, logs_success, pauses, subscribe_from, block_header_request,
  conn_config, establish_conn, subscribed, resubscribing,
}
use dex_executorgo.NodeClient.Retries.{subscribe_from_lem}
use dex_executorgo.NodeClient.Heads.{handle_all, head_in, handle_all-newest}
use dex_executorgo.NodeClient.Resubscribes.{IsResubscribed, reconnect-resubscribes}

-- A file that has no pairs, a directory, and a file that cannot be read.
abbrev avax_file : FileInfo
avax_file = record { name = lit "avalanche.json"; is_dir = false; content = some (lit "{}") }

abbrev folder : FileInfo
folder = record { name = lit "old"; is_dir = true; content = none }

abbrev unmarshal : Text → Option (Dict Pair)
unmarshal t = some []

load_pairs_config_lem_example :
    ((true ≡ true)
      × Loaded unmarshal
          (load_pairs_config unmarshal (some (avax_file ∷ folder ∷ [])))
          (λ chain. pairs_of unmarshal chain (avax_file ∷ folder ∷ []) none))
    ⊎ ((true ≡ false)
        × (load_pairs_config unmarshal (some (avax_file ∷ folder ∷ [])) ≡ panics explicit))
load_pairs_config_lem_example = load_pairs_config_lem unmarshal (avax_file ∷ folder ∷ [])

abbrev busy : ℕ → Option Text
busy n = if ltb n 2 then some (lit "busy") else none

subscribe_from_lem_example :
    subscribe_from 3 new_heads busy 0
    ≡ some (
        logs_error new_heads (lit "busy")
        ∷ pauses (second * 5)
        ∷ logs_error new_heads (lit "busy")
        ∷ pauses (second * 5)
        ∷ logs_success new_heads
        ∷ logs_success new_heads
        ∷ logs_success new_heads
        ∷ [])
subscribe_from_lem_example =
    subscribe_from_lem 3 new_heads busy 0 (lit "busy" ∷ lit "busy" ∷ []) (refl, (refl, refl))
      (omega arith)

abbrev node : NodeClient
node = record { rpc_url = lit "http://node"; ws_endpoint = lit "wss://node"; header_ws_list = [] }

abbrev head_of : Text → HeadRsp
head_of method = record {
  jsonrpc = lit "2.0";
  method = method;
  params = record {
    subscription = [];
    result = record {
      parent_hash = [];
      sha3_uncles = [];
      miner = [];
      state_root = [];
      transactions_root = [];
      receipts_root = [];
      logs_bloom = [];
      difficulty = [];
      number = pos 48;
      gas_limit = [];
      gas_used = [];
      timestamp = pos 1700000000;
      extra_data = [];
      mix_hash = [];
      nonce = [];
      ext_data_hash = [];
      base_fee_per_gas = [];
      ext_data_gas_used = [];
      block_gas_cost = [];
      blob_gas_used = null;
      excess_blob_gas = null;
      parent_beacon_block_root = null;
      hash = [];
    };
  };
}

-- The message is the method.
abbrev heads : Text → Option HeadRsp
heads d = some (head_of d)

abbrev messages : List Text
messages = lit "eth_subscription" ∷ [] ∷ lit "invalid request" ∷ []

handle_all-newest_example :
    (handle_all heads node messages).header_ws_list
    ≡ drop
        (dropped (length (filter_map (head_in heads) messages)))
        (filter_map (head_in heads) messages)
handle_all-newest_example = handle_all-newest heads node messages refl

abbrev marshal : WsRequest → Option Text
marshal request = some request.method

abbrev ws : WsConn
ws = record {
  config = record {
    ws_url = lit "wss://node";
    proxy_url = [];
    bind_addr = [];
    req_headers = [];
    heartbeat_interval_time = 0;
    heartbeat_data = none;
    heartbeat_data_stream = none;
    is_auto_reconnect = true;
    proto_handle_func = some (handle 1);
    decompress_func = none;
    error_handle_func = none;
    custom_sub = none;
    pre_reconnect_hook = none;
    post_reconnect_success_hook = some (handle 2);
    is_dump = false;
    disable_enable_compression = false;
    read_dead_line_time = pos 5000000000;
    reconnect_interval = 10000000000;
    err_msg = [];
    err_sleep_interval = 0;
  };
  connected = true;
  write_buffer_chan = record { queue = lit "eth_subscribe" ∷ []; capacity = 10; closed = false };
  ping_message_buffer_chan = make 10;
  pong_message_buffer_chan = make 10;
  close_message_buffer_chan = make 10;
  close = make 1;
  lock_held = false;
}

made :
    establish_conn marshal node [] (handle 1) (handle 2) block_header_request none
    ≡ returns (subscribed ws, dials (lit "wss://node") ∷ starts_loops ∷ [])
unfolding establish_conn new_ws subscribe send_message send make conn_config
    new_ws_builder_with_read_timeout proxy_url ws_url proto_handle_func auto_reconnect
    post_reconnect_success
made = refl

-- The first dial fails.
abbrev flaky : Peer
flaky = record {
  dial = λ n. returns (if ltb n 2 then some (lit "refused") else none);
  pre_reconnect = λ c n. c;
  custom_sub = [];
  post_reconnect = λ w. returns w;
}

one_failure : (i : ℕ) → i < 1 → (message : Text) × (flaky.dial (1 + i) ≡ returns (some message))
one_failure zero h = (lit "refused", refl)
one_failure (suc i) h = absurd (omega arith)

reconnect-resubscribes_example :
    IsResubscribed marshal node []
      (handle 1)
      (handle 2)
      block_header_request
      refl
      (reconnect (resubscribing marshal block_header_request flaky) ws)
reconnect-resubscribes_example =
    reconnect-resubscribes marshal node [] (handle 1) (handle 2) block_header_request refl flaky 1
      98 made refl one_failure refl
