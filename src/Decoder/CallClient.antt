-- ===== src/Decoder/CallClient.antt =====
-- CallClientDecoder: the symbols of the pairs that a traced transaction calls. The node is a
-- parameter, the answers of its two calls at the time of the decoding.
pub mod Laws
use dex_executorgo.Prelude.{
  Bool, true, false, not, Option, none, some, List, [], ◌∷◌, if◌then◌else◌,
}
use dex_executorgo.Go.Text.{Text, lit}
use dex_executorgo.Go.Dict.{Dict, lookup}
use dex_executorgo.Go.Json.{Json}
use dex_executorgo.Types.Tags.{unmarshal_calls_res}
use dex_executorgo.Types.{PendingTx, ParamsA, Tracer, Calls, no_calls, call_then}
use dex_executorgo.Decoder.Calls.{get_all_address}

-- The answer to debug_traceCall: an error, or what the call puts into an interface{}.
pub data TraceReply : Type 0 where
  call_failed : TraceReply
  replied : Json → TraceReply

pub record EthClient : Type 0 where
  pub debug_trace_call : ParamsA → Text → Tracer → TraceReply
  pub transaction_receipt : Text → Bool  -- of the hash's text; false is an error, as for no receipt

-- The variables that the two goroutines share with DecodeToSymbol; each writes one of them.
pub record Shared : Type 0 where
  pub addresses : List Text
  pub already_on_chain : Bool

pub data Goroutine : Type 0 where
  trace_task receipt_task : Goroutine

pub params_a : PendingTx → ParamsA
params_a tx = record { from = tx.from; to = tx.to; call_data = tx.input }

pub params_b : Tracer
params_b = record {
  tracer = lit "callTracer";
  tracer_config = record { with_log = true; only_top_call = false };
}

-- An error of the call or of the decoding leaves `addresses` as it was. Marshal writes the
-- answer's values again, so that it is decoded as it came.
record_trace : TraceReply → Shared → Shared
unfolding get_all_address
record_trace call_failed s = s
record_trace (replied result) s = elim (unmarshal_calls_res result) [
  | none ↦ s
  | some res ↦ record s { addresses = get_all_address (call_then res no_calls) }
]

-- What a goroutine does to the shared variables.
run_task : EthClient → PendingTx → Goroutine → Shared → Shared
unfolding params_a params_b record_trace
run_task c tx trace_task s =
    record_trace (c.debug_trace_call (params_a tx) (lit "latest") params_b) s
run_task c tx receipt_task s =
    if c.transaction_receipt tx.hash then s else record s { already_on_chain = false }

run_tasks : EthClient → PendingTx → List Goroutine → Shared → Shared
unfolding run_task
run_tasks c tx [] s = s
run_tasks c tx (t ∷ ts) s = run_tasks c tx ts (run_task c tx t s)

-- The loop that looks the addresses up.
known_symbols : Dict Text → List Text → List Text
known_symbols pair_symbol_map [] = []
known_symbols pair_symbol_map (address ∷ rest) = elim (lookup address pair_symbol_map) [
  | none ↦ known_symbols pair_symbol_map rest
  | some symbol ↦ symbol ∷ known_symbols pair_symbol_map rest
]

-- CallClientDecoder.DecodeToSymbol, with the order in which the goroutines end. It waits for both.
unfoldable pub decode_to_symbol :
    Dict Text → EthClient → List Goroutine → PendingTx → List Text × Bool
unfolding run_tasks known_symbols
decode_to_symbol pair_symbol_map c order tx =
    let s = run_tasks c tx order (record { addresses = []; already_on_chain = true }) in
    (
      if not s.already_on_chain then known_symbols pair_symbol_map s.addresses else [],
      s.already_on_chain,
    )
