-- ===== src/Tests/OfWiring.antt =====
-- Runs of main.go's tables and of core/nats_sub.go.
use dex_executorgo.Prelude.{◌≡◌, ◌≢◌, refl, false, none, [], ◌∷◌, arith}
use dex_executorgo.Go.Text.{Text, lit, text_eq, to_lower, split}
use dex_executorgo.Go.Text.Equality.{text_eq_iff}
use dex_executorgo.Go.Text.Split.{is_free}
use dex_executorgo.Go.Outcome.{returns}
use dex_executorgo.Go.Dict.{Dict, lookup}
use dex_executorgo.Nats.{sends, receive_signal_chan, signal_msg_handler}
use dex_executorgo.Wiring.{chain_name, signal_key, new_router, pair_symbol}
use dex_executorgo.Wiring.Subject.{signal_msg_handler-signal_key}
use dex_executorgo.Wiring.Tables.{new_router-to_lower}
use dex_executorgo.Wiring.Pairs.{pair_symbol_lem}

abbrev configured : Dict (Unit {0})
configured = (lit "bsc_v1", tt) ∷ (lit "avalanche_v1", tt) ∷ []

signal_msg_handler-signal_key_example :
    signal_msg_handler
      (receive_signal_chan configured [])
      (signal_key (lit "avalanche") (lit "avalanche_v1"))
      (lit "{}")
    ≡ returns (sends (lit "avalanche_v1") (lit "{}"))
unfolding is_free chain_name split lookup text_eq
signal_msg_handler-signal_key_example =
    signal_msg_handler-signal_key configured (lit "avalanche_v1") (lit "avalanche") (lit "{}") refl
      refl refl

abbrev routers : Dict Text
routers = (lit "traderjoe", lit "0xA1") ∷ (lit "pangolin", lit "0xA2") ∷ []

differ : (s t : Text) → text_eq s t ≡ false → s ≢ t
differ s t h e = grind (arith, text_eq_iff s t)

new_router-to_lower_example : lookup (lit "0xa1") (new_router routers []) ≡ none
unfolding text_eq to_lower
new_router-to_lower_example =
    new_router-to_lower routers (lit "0xa1")
      (differ (lit "0xa1") (lit "0xA1") refl, (differ (lit "0xa2") (lit "0xA2") refl, tt)) refl

pair_symbol_lem_example : pair_symbol (lit "joeswap@AVAX/USDC") ≡ returns (lit "avax_usdc")
unfolding is_free to_lower
pair_symbol_lem_example = pair_symbol_lem (lit "joeswap") (lit "AVAX") (lit "USDC") refl refl refl
