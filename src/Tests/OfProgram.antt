-- ===== src/Tests/OfProgram.antt =====
-- Runs of the whole program: two chains, their signals and their heads.
use dex_executorgo.Prelude.{false, ◌≡◌, refl, none, some, List, [], ◌∷◌, Option, All}
use dex_executorgo.Go.Text.{Text, lit, text_eq}
use dex_executorgo.Go.Text.Split.{is_free}
use dex_executorgo.Go.Outcome.{returns}
use dex_executorgo.Go.Dict.{Dict, lookup}
use dex_executorgo.Config.{ChainItem}
use dex_executorgo.Types.{Signal}
use dex_executorgo.Nats.{receive_signal_chan}
use dex_executorgo.Prelude.Int.{pos}
use dex_executorgo.Decoder.CallClient.{EthClient, call_failed}
use dex_executorgo.Manager.Rebuild.{Clock}
use dex_executorgo.Manager.Loops.{NodeMgr, Action, head, received, pending, run}
use dex_executorgo.Program.{run_all}
use dex_executorgo.Program.Inputs.{Input, IsPlain, signal_for, round_of, occurrences, events_of}
use dex_executorgo.Program.Rounds.{actions_of}
use dex_executorgo.Program.Separate.{run_all-separates}
use dex_executorgo.Program.Signals.{Keeps, started-Keeps}
use dex_executorgo.Tests.Data.{item_at, platform, header_of, avax_signal, eth_signal}

abbrev chains : Dict ChainItem
chains =
    (lit "avalanche_v1", item_at (lit "http://node"))
    ∷ (lit "bsc_v1", item_at (lit "http://bsc"))
    ∷ []

abbrev client : EthClient
client = record { debug_trace_call = λ p l t. call_failed; transaction_receipt = λ h. false }

abbrev clock : Clock
clock = record { logged_second = 30; checked_second = 31; millis = λ i. pos 1000 }

abbrev chain_enemies : Dict (List Text)
chain_enemies = (lit "bsc", lit "0xEE" ∷ []) ∷ []

-- A head for each chain, a competitor's transaction on one, and a signal for each and for a chain that is not configured.
abbrev inputs : List (Input platform)
inputs =
    round_of (lit "bsc_v1") (head (header_of 47))
    ∷ round_of (lit "bsc_v1") (received (pending 27 client [] clock))
    ∷ signal_for (lit "bsc_v1") (lit "{}") 5
    ∷ round_of (lit "avalanche_v1") (head (header_of 12))
    ∷ signal_for (lit "avalanche_v1") (lit "{}") 6
    ∷ signal_for (lit "solana_v1") (lit "{}") 7
    ∷ []

plain : All (IsPlain platform) inputs
unfolding is_free
plain = (
  (refl, refl),
  ((refl, refl), ((refl, refl), ((refl, refl), ((refl, refl), ((refl, refl), tt))))),
)

abbrev dial : Text → Option Text
dial url = none

started-Keeps_example :
    Keeps platform dial chain_enemies [] (lit "bsc_v1") (item_at (lit "http://bsc")) chains inputs
unfolding lookup text_eq
started-Keeps_example =
    started-Keeps platform dial chain_enemies [] (lit "bsc_v1") chains inputs refl refl refl plain

abbrev mgr_with : List Signal → NodeMgr platform
mgr_with signals = record {
  router_map = [];
  enemies_map = [];
  pending_tx_list = [];
  header_ws_list = [];
  signals = signals;
  r_decoder = none;
  pair_symbol_map = [];
}

abbrev managers : Dict (NodeMgr platform)
managers =
    (lit "avalanche_v1", mgr_with (eth_signal ∷ []))
    ∷ (lit "bsc_v1", mgr_with (avax_signal ∷ []))
    ∷ []

run_all-separates_example :
    (last : Dict (NodeMgr platform) × List (Text × Action)) × (run_all platform
        (receive_signal_chan managers [])
        managers
        (occurrences platform inputs)
      ≡ returns last)
    × (lookup (lit "bsc_v1") last.0
        ≡ some
            (run platform
              (mgr_with (avax_signal ∷ []))
              (events_of platform (lit "bsc_v1") inputs)).0)
    × (actions_of platform (lit "bsc_v1") last.1
        ≡ (run platform (mgr_with (avax_signal ∷ [])) (events_of platform (lit "bsc_v1") inputs)).1)
unfolding lookup text_eq
run_all-separates_example =
    run_all-separates platform managers (lit "bsc_v1") managers inputs (λ k absent. absent) plain
      refl
