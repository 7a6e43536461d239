-- ===== src/Tests/OfDecoder.antt =====
-- Runs of the decoders of core/node_mgr.go.
use mathlib.Core.List.{filter_map}
use dex_executorgo.Prelude.{◌≡◌, false, some, [], ◌∷◌, arith}
use dex_executorgo.Go.Text.{Text, lit, text_eq}
use dex_executorgo.Go.Outcome.{Yields}
use dex_executorgo.Go.Dict.{Dict, lookup}
use dex_executorgo.Types.{Calls, no_calls, call_then}
use dex_executorgo.Decoder.Calls.{get_all_address}
use dex_executorgo.Decoder.Calls.Order.{visit, visit-eq-get_all_address}
use dex_executorgo.Decoder.Router.{RouterDecoder}
use dex_executorgo.Decoder.Router
use dex_executorgo.Decoder.Router.Laws.{Swap, decode_to_symbol-Swap}
use dex_executorgo.Types.Tags.{unmarshal_calls_res}
use dex_executorgo.Tests.Values.{json_of_call}
use dex_executorgo.Decoder.CallClient.{EthClient, replied, trace_task, receipt_task}
use dex_executorgo.Decoder.CallClient
use dex_executorgo.Decoder.CallClient.Laws.{IsSchedule, decode_to_symbol_lem}
use dex_executorgo.Tests.Data.{abi, pending_tx, enemy, trace}

abbrev calls : Calls
calls = call_then trace (call_then trace no_calls)

visit-eq-get_all_address_example : visit 6 calls ≡ get_all_address calls
visit-eq-get_all_address_example = visit-eq-get_all_address 6 calls (omega arith)

-- A node with the trace, and no receipt yet.
abbrev node : EthClient
node = record {
  debug_trace_call = λ p l t. replied (json_of_call trace);
  transaction_receipt = λ h. false;
}

abbrev pairs : Dict Text
pairs = (lit "0xa3", lit "avax_usdc") ∷ (lit "0xa1", lit "eth_usdc") ∷ []

decode_to_symbol_lem_example :
    CallClient.decode_to_symbol pairs node (receipt_task ∷ trace_task ∷ []) (pending_tx enemy [])
    ≡ (lit "eth_usdc" ∷ lit "avax_usdc" ∷ [], false)
unfolding lookup text_eq filter_map get_all_address unmarshal_calls_res json_of_call
decode_to_symbol_lem_example =
    decode_to_symbol_lem pairs node (pending_tx enemy []) IsSchedule.receipt_first

-- The tokens with the addresses that the path of the argument 3 leads over.
abbrev router : RouterDecoder abi
router = record {
  addr_tokens = (3 ∷ [], lit "avax") ∷ (4 ∷ [], lit "usdc") ∷ [];
  uniswap_v3_router_abi = tt;
  traderjoe_router_abi = tt;
}

decode_to_symbol-Swap_example : Yields (Swap abi router.addr_tokens (lit "traderjoe")) (
    Router.decode_to_symbol abi
      (some router)
      (lit "traderjoe")
      (pending_tx enemy (lit "0x12345678010203")))
decode_to_symbol-Swap_example =
    decode_to_symbol-Swap abi router (lit "traderjoe") (pending_tx enemy (lit "0x12345678010203"))
