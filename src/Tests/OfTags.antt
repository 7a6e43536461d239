-- ===== src/Tests/OfTags.antt =====
-- Values decoded by the JSON tags of core/type.go.
use dex_executorgo.Prelude.{◌≡◌, refl, none, some, []}
use dex_executorgo.Go.Text.{lit}
use dex_executorgo.Go.Json.{null, number, string, array, object, nil, cons, end, field}
use dex_executorgo.Go.Float.{float_zero}
use dex_executorgo.Types.{calls_res, no_calls}
use dex_executorgo.Types.Tags.{unmarshal_pending_tx, unmarshal_calls_res, zero_pending_tx}
use dex_executorgo.Tests.Values.{json_of_call, json_of_pending_tx}
use dex_executorgo.Tests.Data.{trace, pending_tx, enemy}

whole_trace : unmarshal_calls_res (json_of_call trace) ≡ some trace
unfolding unmarshal_calls_res json_of_call
whole_trace = refl

whole_tx :
    unmarshal_pending_tx (json_of_pending_tx (pending_tx enemy (lit "0xd1")))
    ≡ some (pending_tx enemy (lit "0xd1"))
unfolding unmarshal_pending_tx json_of_pending_tx
whole_tx = refl

-- Keys in another case, unknown keys and null are read.
odd_keys :
    unmarshal_pending_tx (
      object (
        field (lit "TO") (string enemy) (
          field
            (lit "blockHash")
            (number float_zero)
            (field (lit "accessList") null (field (lit "value") null end)))))
    ≡ some (record zero_pending_tx { to = enemy })
unfolding unmarshal_pending_tx
odd_keys = refl

-- A wrong type is refused, in a call below as well.
wrong_type :
    unmarshal_calls_res (
      object (
        field
          (lit "calls")
          (array (cons (object (field (lit "gas") (number float_zero) end)) nil))
          (field (lit "to") (string enemy) end)))
    ≡ none
unfolding unmarshal_calls_res
wrong_type = refl

-- The answer null is a call with an empty address.
null_answer : unmarshal_calls_res null ≡ some (calls_res [] [] [] [] [] [] [] [] no_calls)
unfolding unmarshal_calls_res
null_answer = refl
