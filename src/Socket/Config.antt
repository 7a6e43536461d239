-- ===== src/Socket/Config.antt =====
-- WsConfig and the methods of WsBuilder, each of which sets a field and returns the builder. A
-- function value of the source is a handle here; what it does is told where it is called. A
-- duration that a caller sets is not negative; the read deadline is an int64, which NewWs computes.
use dex_executorgo.Prelude.{ℕ, Bool, true, false, Option, none, some, List, [], ◌∷◌, ◌++◌}
use dex_executorgo.Prelude.Int.{ℤ, pos}
use dex_executorgo.Go.Text.{Text}
use dex_executorgo.Go.Dict.{Dict, lookup, insert}

pub data Handle : Type 0 where
  handle : ℕ → Handle

pub record WsConfig : Type 0 where
  pub ws_url : Text
  pub proxy_url : Text
  pub bind_addr : Text
  pub req_headers : Dict (List Text)
  pub heartbeat_interval_time : ℕ
  pub heartbeat_data : Option Handle
  pub heartbeat_data_stream : Option Handle
  pub is_auto_reconnect : Bool
  pub proto_handle_func : Option Handle
  pub decompress_func : Option Handle
  pub error_handle_func : Option Handle
  pub custom_sub : Option Handle
  pub pre_reconnect_hook : Option Handle
  pub post_reconnect_success_hook : Option Handle
  pub is_dump : Bool
  pub disable_enable_compression : Bool
  pub read_dead_line_time : ℤ
  pub reconnect_interval : ℕ
  pub err_msg : Text
  pub err_sleep_interval : ℕ

abbrev pub second : ℕ
second = 1000000000

unfoldable pub new_ws_builder_with_read_timeout : ℕ → WsConfig
new_ws_builder_with_read_timeout read_timeout = record {
  ws_url = [];
  proxy_url = [];
  bind_addr = [];
  req_headers = [];
  heartbeat_interval_time = 0;
  heartbeat_data = none;
  heartbeat_data_stream = none;
  is_auto_reconnect = false;
  proto_handle_func = none;
  decompress_func = none;
  error_handle_func = none;
  custom_sub = none;
  pre_reconnect_hook = none;
  post_reconnect_success_hook = none;
  is_dump = false;
  disable_enable_compression = false;
  read_dead_line_time = pos read_timeout;
  reconnect_interval = 10000000000;
  err_msg = [];
  err_sleep_interval = 0;
}

unfoldable pub new_ws_builder : WsConfig
unfolding new_ws_builder_with_read_timeout
new_ws_builder = new_ws_builder_with_read_timeout 0

unfoldable pub ws_url : Text → WsConfig → WsConfig
ws_url url b = record b { ws_url = url }

unfoldable pub proxy_url : Text → WsConfig → WsConfig
proxy_url url b = record b { proxy_url = url }

unfoldable pub bind_addr : Text → WsConfig → WsConfig
bind_addr addr b = record b { bind_addr = addr }

abbrev headers_at : Option (List Text) → List Text
headers_at none = []
headers_at (some values) = values

unfoldable pub req_header : Text → Text → WsConfig → WsConfig
req_header key value b = record b {
  req_headers = insert key (headers_at (lookup key b.req_headers) ++ value ∷ []) b.req_headers;
}

unfoldable pub auto_reconnect : WsConfig → WsConfig
auto_reconnect b = record b { is_auto_reconnect = true }

unfoldable pub dump : WsConfig → WsConfig
dump b = record b { is_dump = true }

unfoldable pub heartbeat : Handle → ℕ → WsConfig → WsConfig
heartbeat f t b = record b { heartbeat_interval_time = t; heartbeat_data = some f }

unfoldable pub set_error : Text → ℕ → WsConfig → WsConfig
set_error err_msg t b = record b { err_msg = err_msg; err_sleep_interval = t }

unfoldable pub heartbeat_stream : Handle → ℕ → WsConfig → WsConfig
heartbeat_stream f t b = record b { heartbeat_interval_time = t; heartbeat_data_stream = some f }

unfoldable pub reconnect_interval : ℕ → WsConfig → WsConfig
reconnect_interval t b = record b { reconnect_interval = t }

unfoldable pub proto_handle_func : Handle → WsConfig → WsConfig
proto_handle_func f b = record b { proto_handle_func = some f }

unfoldable pub disable_enable_compression : WsConfig → WsConfig
disable_enable_compression b = record b { disable_enable_compression = true }

unfoldable pub decompress_func : Handle → WsConfig → WsConfig
decompress_func f b = record b { decompress_func = some f }

unfoldable pub error_handle_func : Handle → WsConfig → WsConfig
error_handle_func f b = record b { error_handle_func = some f }

unfoldable pub custom_sub : Handle → WsConfig → WsConfig
custom_sub f b = record b { custom_sub = some f }

unfoldable pub post_reconnect_success : Handle → WsConfig → WsConfig
post_reconnect_success hook b = record b { post_reconnect_success_hook = some hook }

unfoldable pub pre_reconnect : Handle → WsConfig → WsConfig
pre_reconnect hook b = record b { pre_reconnect_hook = some hook }
