-- ===== src/Socket/Dial.antt =====
-- connect of core/websocket.go: the dialer that a configuration asks for, and Build with it. Name
-- resolution, the parsing of URLs and the dial are parameters.
pub mod Options
use dex_executorgo.Prelude.{
  ℕ, ◌*◌, Bool, true, false, Option, none, some, List, [], ◌∷◌, if◌then◌else◌,
}
use dex_executorgo.Go.Text.{Text}
use dex_executorgo.Go.Outcome.{Outcome, returns, panics, nil_deref, or_panic, ◌>>=◌}
use dex_executorgo.Go.Dict.{Dict}
use dex_executorgo.Socket.Config.{WsConfig, second}
use dex_executorgo.Socket.Conn.{WsConn, Effect, new_ws}

pub data Proxy : Type 0 where
  from_environment : Proxy
  proxy_url_of : Text → Proxy

-- websocket.Dialer, as far as it is set.
pub record Dialer : Type 0 where
  pub proxy : Proxy
  pub handshake_timeout : ℕ
  pub local_addr : Option Text
  pub enable_compression : Bool

-- What the outside answers: the IP of a name, whether a text is a URL, and the error of a dial.
pub record Network : Type 0 where
  pub resolve_ip_addr : Text → Option Text
  pub is_url : Text → Bool
  pub dial : Dialer → Text → Dict (List Text) → Option Text

module _ (net : Network) where
  -- The local address. The error of the resolution is not looked at, and its nil address panics.
  unfoldable pub local_addr_for : Text → Outcome (Option Text)
  local_addr_for [] = returns none
  local_addr_for (c ∷ cs) = do
    ip ← or_panic nil_deref (net.resolve_ip_addr (c ∷ cs))
    returns (some ip)

  -- A text that is no URL is logged, and the environment's proxy is kept.
  unfoldable pub proxy_for : Text → Proxy
  proxy_for [] = from_environment
  proxy_for (c ∷ cs) = if net.is_url (c ∷ cs) then proxy_url_of (c ∷ cs) else from_environment

  -- The dialer starts without compression, and DisableEnableCompression turns it off.
  unfoldable pub compression_for : Bool → Bool → Bool
  compression_for current disabled = if disabled then false else current

  unfoldable pub dialer_for : WsConfig → Outcome Dialer
  unfolding local_addr_for proxy_for compression_for
  dialer_for config = do
    local_addr ← local_addr_for config.bind_addr
    returns (record {
      proxy = proxy_for config.proxy_url;
      handshake_timeout = second * 30;
      local_addr = local_addr;
      enable_compression = compression_for false config.disable_enable_compression;
    })

  -- connect: the error of the dial, if any.
  unfoldable pub connect : WsConfig → Outcome (Option Text)
  unfolding dialer_for
  connect config = do
    dialer ← dialer_for config
    returns (net.dial dialer config.ws_url config.req_headers)

  -- Build, with NewWs. The read deadline that NewWs moves is not read by connect.
  unfoldable pub build : WsConfig → Outcome (Option WsConn × List Effect)
  unfolding connect new_ws
  build config = do failure ← connect config; returns (new_ws config failure)
