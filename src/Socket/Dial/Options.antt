-- ===== src/Socket/Dial/Options.antt =====
-- connect of core/websocket.go: what the options of a configuration do.
use dex_executorgo.Prelude.{ℕ, ◌≡◌, refl, Bool, true, false, none, ◌∷◌}
use dex_executorgo.Go.Text.{Text}
use dex_executorgo.Go.Outcome.{panics, nil_deref}
use dex_executorgo.Socket.Config.{WsConfig, disable_enable_compression}
use dex_executorgo.Socket.Dial.{Network, local_addr_for, compression_for, dialer_for, connect}

module _ (net : Network) where
  -- The compression is off in any case.
  compression_off : (disabled : Bool) → compression_for net false disabled ≡ false
  unfolding compression_for
  compression_off true = refl
  compression_off false = refl

  -- The builder's DisableEnableCompression changes nothing: the dialer's compression is off without
  -- it, and connect comes to the same for every configuration.
  pub connect-disable_enable_compression :
      (b : WsConfig) → connect net (disable_enable_compression b) ≡ connect net b
  unfolding connect dialer_for disable_enable_compression
  connect-disable_enable_compression b =
      rw (compression_off b.disable_enable_compression, compression_off true) refl

  local_addr-panics :
      (addr : Text) (c : ℕ) (cs : Text)
      → addr ≡ c ∷ cs
      → net.resolve_ip_addr (c ∷ cs) ≡ none
      → local_addr_for net addr ≡ panics nil_deref
  unfolding local_addr_for
  local_addr-panics addr c cs bound unknown = rw (bound, local_addr_for) (rw unknown refl)

  -- An address to bind to that does not resolve makes connect panic.
  pub connect-panics :
      (config : WsConfig) (c : ℕ) (cs : Text)
      → config.bind_addr ≡ c ∷ cs
      → net.resolve_ip_addr (c ∷ cs) ≡ none
      → connect net config ≡ panics nil_deref
  unfolding connect dialer_for
  connect-panics config c cs bound unknown =
      rw (local_addr-panics config.bind_addr c cs bound unknown) refl
