-- ===== src/Decoder/Calls/Order.antt =====
-- GetAllAddress of core/node_mgr.go: which addresses, and in which order.
use dex_executorgo.Prelude.{
  ℕ, zero, suc, ◌+◌, ◌≤◌, ◌≡◌, refl, ap, ap₂, sym, ◌∙◌, List, [], ◌∷◌, ◌++◌, length, length-append,
  arith,
}
use mathlib.Core.List.{append_assoc}
use dex_executorgo.Go.Text.{Text}
use dex_executorgo.Types.{CallsRes, calls_res, Calls, no_calls, call_then}
use dex_executorgo.Decoder.Calls.{get_all_address, call_addresses}

-- The number of calls in a trace.
abbrev mutual
  pub count_calls : Calls → ℕ
  count_calls no_calls = 0
  count_calls (call_then call rest) = count_call call + count_calls rest

  pub count_call : CallsRes → ℕ
  count_call (calls_res from gas gas_used to input output value type call) = suc (count_calls call)

-- One list of calls before another.
before : Calls → Calls → Calls
before no_calls rest = rest
before (call_then call more) rest = call_then call (before more rest)

-- A traversal with an explicit stack: the next call is taken off, its address is put out, and the
-- calls that it made go on top of the stack.
unfoldable pub visit : ℕ → Calls → List Text
unfolding before
visit zero stack = []
visit (suc fuel) no_calls = []
visit (suc fuel) (call_then (calls_res from gas gas_used to input output value type call) rest) =
    to ∷ visit fuel (before call rest)

get_all_address-before :
    (c d : Calls) → get_all_address (before c d) ≡ get_all_address c ++ get_all_address d
unfolding get_all_address before
get_all_address-before no_calls d = refl
get_all_address-before (call_then call rest) d =
    ap (◌++◌ (call_addresses call)) (get_all_address-before rest d)
    ∙ sym (append_assoc (call_addresses call) (get_all_address rest) (get_all_address d))

count_calls-before : (c d : Calls) → count_calls (before c d) ≡ count_calls c + count_calls d
unfolding before
count_calls-before no_calls d = omega arith
count_calls-before (call_then call rest) d = omega (arith, count_calls-before rest d)

-- The recursion of GetAllAddress puts out what the traversal with a stack does: each call's
-- address before those of the calls that it made, and these before its later siblings'. As many
-- rounds as there are calls are enough.
pub visit-eq-get_all_address :
    (fuel : ℕ) (calls : Calls) → count_calls calls ≤ fuel → visit fuel calls ≡ get_all_address calls
unfolding visit get_all_address
visit-eq-get_all_address zero no_calls h = refl
visit-eq-get_all_address zero (call_then (calls_res _ _ _ to _ _ _ _ call) rest) h =
    absurd (omega arith)
visit-eq-get_all_address (suc fuel) no_calls h = refl
visit-eq-get_all_address (suc fuel) (call_then (calls_res _ _ _ to _ _ _ _ call) rest) h =
    ap (◌∷◌ to) (
      visit-eq-get_all_address fuel (before call rest) (omega (arith, count_calls-before call rest))
      ∙ get_all_address-before call rest)

mutual
  unfolding get_all_address

  length-get_all_address_calls :
      (calls : Calls) → length (get_all_address calls) ≡ count_calls calls
  length-get_all_address_calls no_calls = refl
  length-get_all_address_calls (call_then call rest) =
      length-append (call_addresses call) (get_all_address rest)
      ∙ ap₂ ◌+◌ (length-call_addresses call) (length-get_all_address_calls rest)

  length-call_addresses : (call : CallsRes) → length (call_addresses call) ≡ count_call call
  length-call_addresses (calls_res from gas gas_used to input output value type call) =
      ap suc (length-get_all_address_calls call)

-- One address is put out for each call of the trace.
pub length-get_all_address : (calls : Calls) → length (get_all_address calls) ≡ count_calls calls
length-get_all_address calls = length-get_all_address_calls calls
