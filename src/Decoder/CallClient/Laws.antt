-- ===== src/Decoder/CallClient/Laws.antt =====
-- What CallClientDecoder.DecodeToSymbol returns, in whichever order its goroutines end.
use dex_executorgo.Prelude.{
  ◌≡◌, refl, ◌⊎◌, inl, inr, Option, none, some, Bool, true, false, not, List, [], ◌∷◌,
  if◌then◌else◌, arith, Option-cases,
}
use mathlib.Core.List.{filter_map, append-nil}
use dex_executorgo.Go.Text.{Text, lit}
use dex_executorgo.Go.Dict.{Dict, lookup}
use dex_executorgo.Types.{PendingTx, CallsRes}
use dex_executorgo.Types.Tags.{unmarshal_calls_res}
use dex_executorgo.Decoder.Calls.{get_all_address, call_addresses}
use dex_executorgo.Decoder.CallClient.{
  EthClient, TraceReply, call_failed, replied, Goroutine, trace_task, receipt_task, record_trace,
  known_symbols, decode_to_symbol, params_a, params_b,
}

-- Both goroutines, in either order.
pub data IsSchedule : List Goroutine → Type 0 where
  trace_first : IsSchedule (trace_task ∷ receipt_task ∷ [])
  receipt_first : IsSchedule (receipt_task ∷ trace_task ∷ [])

abbrev addresses_of : Option CallsRes → List Text
addresses_of none = []
addresses_of (some res) = call_addresses res

-- The addresses of the trace, if the node gave one.
abbrev pub trace_addresses : TraceReply → List Text
trace_addresses call_failed = []
trace_addresses (replied result) = addresses_of (unmarshal_calls_res result)

record_trace_lem :
    (reply : TraceReply) (seen : Bool)
    → record_trace reply (record { addresses = []; already_on_chain = seen })
      ≡ record { addresses = trace_addresses reply; already_on_chain = seen }
unfolding record_trace get_all_address
record_trace_lem call_failed seen = refl
record_trace_lem (replied result) seen = elim (Option-cases (unmarshal_calls_res result)) [
  | inl e ↦ rw (e, record_trace) refl
  | inr (res, e) ↦ rw (e, record_trace, append-nil (call_addresses res)) refl
]

known_symbols_lem :
    (table : Dict Text) (addresses : List Text)
    → known_symbols table addresses ≡ filter_map (λ a. lookup a table) addresses
unfolding known_symbols filter_map
known_symbols_lem table [] = refl
known_symbols_lem table (a ∷ rest) = ground (arith, known_symbols_lem table rest)

-- The symbols that the table has for the addresses of the trace, in the order of the trace, once
-- the transaction has no receipt; none, and true, once it has one. The order in which the
-- goroutines end makes no difference.
pub decode_to_symbol_lem :
    (pair_symbol_map : Dict Text) (c : EthClient) {order : List Goroutine} (tx : PendingTx)
    → IsSchedule order
    → decode_to_symbol pair_symbol_map c order tx ≡ (
        if c.transaction_receipt tx.hash then ([], true) else (
          filter_map
              (λ a. lookup a pair_symbol_map)
              (trace_addresses (c.debug_trace_call (params_a tx) (lit "latest") params_b)),
          false,
        ))
unfolding decode_to_symbol
decode_to_symbol_lem pair_symbol_map c tx trace_first = ground (
  arith,
  record_trace_lem (c.debug_trace_call (params_a tx) (lit "latest") params_b) true,
  known_symbols_lem pair_symbol_map
      (trace_addresses (c.debug_trace_call (params_a tx) (lit "latest") params_b)),
)
decode_to_symbol_lem pair_symbol_map c tx receipt_first = ground (
  arith,
  record_trace_lem (c.debug_trace_call (params_a tx) (lit "latest") params_b) true,
  record_trace_lem (c.debug_trace_call (params_a tx) (lit "latest") params_b) false,
  known_symbols_lem pair_symbol_map
      (trace_addresses (c.debug_trace_call (params_a tx) (lit "latest") params_b)),
)

only_if_not : (b : Bool) (l : List Text) → (b ≡ false) ⊎ ((if not b then l else []) ≡ [])
only_if_not true l = inr refl
only_if_not false l = inl refl

-- A transaction that is reported to be on the chain already comes with no symbols.
pub no_symbols_on_chain :
    (table : Dict Text) (client : EthClient) (order : List Goroutine) (tx : PendingTx)
    → ((decode_to_symbol table client order tx).1 ≡ false)
      ⊎ ((decode_to_symbol table client order tx).0 ≡ [])
unfolding decode_to_symbol
no_symbols_on_chain table client order tx = only_if_not _ _
