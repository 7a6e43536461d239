-- ===== src/Tests/OfRound.antt =====
-- A competitor's transaction answered, and the order of a map's entries.
use mathlib.Core.List.{filter_map, Permᴰ}
use dex_executorgo.Prelude.{◌≡◌, refl, true, false, none, List, [], ◌∷◌, ◌++◌, arith}
use dex_executorgo.Prelude.Int.{pos, ◌+ℤ◌, ◌-ℤ◌}
use dex_executorgo.Go.Text.{lit, text_eq}
use dex_executorgo.Go.Text.Split.{is_free}
use dex_executorgo.Go.Outcome.{returns}
use dex_executorgo.Go.Word.{to_uint64, to_int64, add_int64, sub_int64, big_int64}
use dex_executorgo.Go.Dict.{Dict, lookup}
use dex_executorgo.Types.{DepthDetail}
use dex_executorgo.Window.{push_window}
use dex_executorgo.Decoder.Calls.{get_all_address}
use dex_executorgo.Types.Tags.{unmarshal_calls_res}
use dex_executorgo.Tests.Values.{json_of_call, json_of_pending_tx}
use dex_executorgo.Decoder.CallClient.{EthClient, replied, trace_task, receipt_task}
use dex_executorgo.Decoder.CallClient.Laws.{IsSchedule}
use dex_executorgo.Manager.Platform.{pending_of}
use dex_executorgo.Manager.Block.{block_after}
use dex_executorgo.Manager.Trade.{Message, hedge_subjects}
use dex_executorgo.Manager.Trade.Reordered.{SameHedges, hedge_subjects-SameHedges}
use dex_executorgo.Manager.Rebuild.{Clock, base_gas_price, new_gas_price}
use dex_executorgo.Manager.Loops.{NodeMgr, publishes, pending, gas_price_analyse}
use dex_executorgo.Manager.Loops.Outbids.{IsContest, IsReady, Outbids, round-Outbids}
use dex_executorgo.Tests.Data.{
  orders, floats, platform, avax_signal, header_of, enemy, pending_tx, trace,
}

abbrev client : EthClient
client = record {
  debug_trace_call = λ p l t. replied (json_of_call trace);
  transaction_receipt = λ h. false;
}

abbrev clock : Clock
clock = record { logged_second = 30; checked_second = 31; millis = λ i. pos 1000 }

abbrev mgr : NodeMgr platform
mgr = record {
  router_map = [];
  enemies_map = (enemy, true) ∷ [];
  pending_tx_list = [];
  header_ws_list = header_of 48 ∷ [];
  signals = avax_signal ∷ [];
  r_decoder = none;
  pair_symbol_map = (lit "0xa2", lit "avax_usdc") ∷ [];
}

contest : IsContest platform mgr 27 client (lit "avax_usdc")
unfolding text_eq lookup get_all_address filter_map pending_of json_of_pending_tx
    unmarshal_calls_res json_of_call
contest = record {
  tx_data = pending_tx enemy (lit "0xd1");
  decoded = refl;
  no_router = refl;
  competitor = refl;
  no_receipt = refl;
  others = [];
  traced = refl;
}

ready : IsReady platform mgr (lit "avax_usdc") avax_signal clock (pos 27)
unfolding is_free base_gas_price new_gas_price ◌+ℤ◌ ◌-ℤ◌ block_after to_int64 add_int64 sub_int64
    big_int64 to_uint64
ready = record {
  header = header_of 48;
  known = refl;
  older = [];
  newer = [];
  kept = refl;
  fits = refl;
  newest = tt;
  in_time = omega arith;
  tradable = record { has_quote = refl; has_slashes = refl };
  enough = omega arith;
  small = omega arith;
}

round-Outbids_example :
    (m : Message) × (gas_price_analyse platform mgr
        (pending 27 client (trace_task ∷ receipt_task ∷ []) clock)
      ≡ record {
        mgr = record mgr { pending_tx_list = push_window [] 27 };
        actions = publishes m ∷ [];
        ended = returns tt;
      })
    × Outbids platform avax_signal clock (pos 27) m
round-Outbids_example =
    round-Outbids platform mgr 27 client clock (lit "avax_usdc") avax_signal IsSchedule.trace_first
      contest ready

abbrev more : Dict (List DepthDetail)
more = (lit "okx", []) ∷ avax_signal.depth_details

hedge_subjects-SameHedges_example :
    SameHedges (hedge_subjects orders floats avax_signal (λ _. pos 1000) more []) (
      hedge_subjects orders floats avax_signal
        (λ _. pos 1000)
        (avax_signal.depth_details ++ (lit "okx", []) ∷ [])
        [])
hedge_subjects-SameHedges_example =
    hedge_subjects-SameHedges orders floats avax_signal (pos 1000) more
      (avax_signal.depth_details ++ (lit "okx", []) ∷ []) ∣ Permᴰ.swap refl refl ∣₁
