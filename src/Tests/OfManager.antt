-- ===== src/Tests/OfManager.antt =====
-- Runs of core/node_mgr.go's model.
use mathlib.Core.List.{filter_map}
use dex_executorgo.Prelude.{
  ◌+◌, ◌≡◌, ◌≢◌, ◌≤◌, refl, true, false, none, List, [], ◌∷◌, arith, length, All,
}
use dex_executorgo.Prelude.Int.{pos, ◌+ℤ◌, ◌-ℤ◌}
use dex_executorgo.Go.Text.{lit, text_eq}
use dex_executorgo.Go.Text.Split.{is_free}
use dex_executorgo.Go.Outcome.{returns, panics, index_range}
use dex_executorgo.Go.Word.{to_uint64, to_int64, add_int64, sub_int64, big_int64}
use dex_executorgo.Go.Dict.{lookup}
use dex_executorgo.Go.Text.Equality.{text_eq_iff}
use dex_executorgo.Types.{Signal, Header}
use dex_executorgo.Window.{push_window, push_all}
use dex_executorgo.Window.Bounds.{push_all_lem}
use dex_executorgo.Decoder.CallClient.{EthClient, call_failed, trace_task, receipt_task}
use dex_executorgo.Tests.Values.{json_of_pending_tx}
use dex_executorgo.Manager.Platform.{pending_of}
use dex_executorgo.Manager.Signals.{read, last_signal_from, get_last_signal_by_symbol}
use dex_executorgo.Manager.Signals.Last.{
  get_last_signal_by_symbol-found, get_last_signal_by_symbol-missing,
}
use dex_executorgo.Manager.Block.{block_after, get_pending_block_num}
use dex_executorgo.Manager.Block.Staleness.{get_pending_block_num-never_stale}
use dex_executorgo.Manager.Trade.{Message, hedge_subjects, trade}
use dex_executorgo.Manager.Trade.Hedges.{steps_of, hedges_of, hedge_subjects_lem}
use dex_executorgo.Manager.Trade.Published.{IsTradable, Answers, trade-Answers}
use dex_executorgo.Manager.Rebuild.{Clock, base_gas_price, new_gas_price, rebuild_tx}
use dex_executorgo.Manager.Rebuild.Fee.{rebuild_tx-outbids, rebuild_tx-underbid}
use dex_executorgo.Manager.Loops.{
  NodeMgr, pending, signal_data, gas_price_analyse, Event, head, received, run,
}
use dex_executorgo.Manager.Loops.History.{
  accepted_head, accepted_signal, accepted_tx, newest, run-newest,
}
use dex_executorgo.Manager.Loops.Actions.{IsNoCancel, run-IsNoCancel}
use dex_executorgo.Manager.Loops.Bounds.{signal_round_returns, enemy_round_panics}
use dex_executorgo.Tests.Data.{orders, floats, platform, avax_signal, eth_signal, header_of, enemy}

abbrev client : EthClient
client = record { debug_trace_call = λ p l t. call_failed; transaction_receipt = λ h. false }

abbrev clock : Clock
clock = record { logged_second = 30; checked_second = 31; millis = λ i. pos (1000 + i) }

abbrev fresh : NodeMgr platform
fresh = record {
  router_map = [];
  enemies_map = (enemy, true) ∷ [];
  pending_tx_list = [];
  header_ws_list = [];
  signals = [];
  r_decoder = none;
  pair_symbol_map = [];
}

-- A header, a header with number 0, a signal, and a competitor's transaction.
abbrev events : List (Event platform)
events =
    head (header_of 48)
    ∷ head (header_of 0)
    ∷ received (signal_data (lit "{}") 5)
    ∷ received (pending 27 client (trace_task ∷ receipt_task ∷ []) clock)
    ∷ []

run-newest_example :
    ((run platform fresh events).0.header_ws_list
      ≡ newest platform (filter_map (accepted_head platform) events))
    × ((run platform fresh events).0.signals
        ≡ newest platform (filter_map (accepted_signal platform) events))
    × ((run platform fresh events).0.pending_tx_list
        ≡ newest platform (filter_map (accepted_tx platform [] ((enemy, true) ∷ [])) events))
run-newest_example =
    run-newest platform fresh events
      (record { no_headers = refl; no_signals = refl; no_txs = refl })

run-IsNoCancel_example : All IsNoCancel (run platform fresh events).1
run-IsNoCancel_example = run-IsNoCancel platform fresh events

abbrev with_header : NodeMgr platform
with_header = record fresh { header_ws_list = header_of 48 ∷ [] }

signal_round_returns_example :
    (gas_price_analyse platform
      (run platform with_header events).0
      (signal_data (lit "{}") 5)).ended
    ≡ returns tt
signal_round_returns_example =
    signal_round_returns platform with_header events (lit "{}") 5
      (record { headers = omega arith; signals = omega arith; txs = omega arith }) (omega arith)

-- A header with number 0 and a signal: no header is kept.
abbrev early : List (Event platform)
early = head (header_of 0) ∷ received (signal_data (lit "{}") 5) ∷ []

enemy_round_panics_example :
    gas_price_analyse platform (run platform fresh early).0 (pending 27 client [] clock) ≡ record {
      mgr = record (run platform fresh early).0 {
        pending_tx_list = push_window (run platform fresh early).0.pending_tx_list 27;
      };
      actions = [];
      ended = panics index_range;
    }
unfolding text_eq lookup filter_map big_int64 to_int64 pending_of json_of_pending_tx
enemy_round_panics_example =
    enemy_round_panics platform fresh early 27 client [] clock
      (record { no_headers = refl; no_signals = refl; no_txs = refl }) refl refl refl refl

abbrev headers : List Header
headers = header_of 47 ∷ header_of 48 ∷ []

get_pending_block_num-never_stale_example : get_pending_block_num headers 31 ≡ returns (pos 49)
get_pending_block_num-never_stale_example =
    get_pending_block_num-never_stale headers 31 refl (omega arith) (omega arith) (omega arith)
      (omega arith)

abbrev signals : List Signal
signals = eth_signal ∷ avax_signal ∷ eth_signal ∷ []

other : (s : Signal) → text_eq s.symbol (lit "avax_usdc") ≡ false → s.symbol ≢ lit "avax_usdc"
other s h e = grind (arith, text_eq_iff s.symbol (lit "avax_usdc"))

get_last_signal_by_symbol-found_example :
    get_last_signal_by_symbol signals (lit "avax_usdc") ≡ avax_signal
unfolding text_eq
get_last_signal_by_symbol-found_example =
    get_last_signal_by_symbol-found (lit "avax_usdc") (eth_signal ∷ []) (eth_signal ∷ [])
      avax_signal refl (other eth_signal refl, tt)

get_last_signal_by_symbol-missing_example :
    get_last_signal_by_symbol (eth_signal ∷ eth_signal ∷ []) (lit "avax_usdc") ≡ eth_signal
unfolding text_eq
get_last_signal_by_symbol-missing_example =
    get_last_signal_by_symbol-missing (lit "avax_usdc") eth_signal (eth_signal ∷ [])
      (other eth_signal refl, (other eth_signal refl, tt))

hedge_subjects_lem_example :
    hedge_subjects orders floats avax_signal clock.millis avax_signal.depth_details []
    ≡ returns
        (hedges_of orders floats avax_signal clock.millis (steps_of avax_signal.depth_details) 0)
unfolding is_free
hedge_subjects_lem_example =
    hedge_subjects_lem orders floats avax_signal clock.millis avax_signal.depth_details

avax-IsTradable : IsTradable avax_signal
unfolding is_free
avax-IsTradable = record { has_quote = refl; has_slashes = refl }

trade-Answers_example :
    (m : Message) × (trade orders floats avax_signal clock.millis (pos 3) ≡ returns (m ∷ []))
    × Answers orders floats avax_signal clock.millis (pos 3) m
trade-Answers_example = trade-Answers orders floats avax_signal clock.millis (pos 3) avax-IsTradable

rebuild_tx-outbids_example :
    (m : Message) × (rebuild_tx orders floats headers
        (avax_signal ∷ [])
        (lit "avax_usdc" ∷ [])
        (pos 27)
        clock
      ≡ returns (m ∷ []))
    × Answers orders floats avax_signal clock.millis (pos 3) m
    × (pos m.body.info.max_priority_fee_per_gas +ℤ pos 25 ≡ pos 28)
unfolding text_eq get_last_signal_by_symbol last_signal_from read base_gas_price new_gas_price ◌+ℤ◌
    ◌-ℤ◌ block_after to_int64 add_int64 sub_int64 big_int64 to_uint64
rebuild_tx-outbids_example =
    rebuild_tx-outbids orders floats headers [] [] avax_signal [] (pos 27) clock refl refl tt
      (omega arith) avax-IsTradable (omega arith) (omega arith)

rebuild_tx-underbid_example :
    (m : Message) × (rebuild_tx orders floats headers
        (avax_signal ∷ [])
        (lit "avax_usdc" ∷ [])
        (pos 20)
        clock
      ≡ returns (m ∷ []))
    × (pos m.body.info.max_priority_fee_per_gas +ℤ pos 21 ≡ pos 25)
unfolding text_eq get_last_signal_by_symbol last_signal_from read base_gas_price new_gas_price ◌+ℤ◌
    ◌-ℤ◌ block_after to_int64 add_int64 sub_int64 big_int64 to_uint64
rebuild_tx-underbid_example =
    rebuild_tx-underbid orders floats headers (avax_signal ∷ []) (lit "avax_usdc") [] (pos 20) clock
      refl (omega arith) avax-IsTradable (omega arith) (omega arith)

push_all_lem_example :
    (push_all [] signals ≡ signals)
    × (length (push_all [] signals) ≤ 201)
    × ((102 ≤ 3) → 102 ≤ length (push_all [] signals))
push_all_lem_example = push_all_lem signals
