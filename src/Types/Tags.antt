-- ===== src/Types/Tags.antt =====
-- The JSON tags of core/type.go, for the two types that are decoded from strings, lists and values of
-- any type only.
use dex_executorgo.Prelude.{true, false, ◌&&◌, Option, none, some, List, [], ◌∷◌, if◌then◌else◌}
use dex_executorgo.Go.Text.{Text, lit}
use dex_executorgo.Go.Json.{
  Json, null, bool, number, string, array, object, Items, nil, cons, Fields, end, field, Read, fits,
  text_field, any_field, list_field, assign, unmarshal,
}
use dex_executorgo.Types.{PendingTx, CallsRes, calls_res, Calls, no_calls, call_then}

-- The zero value of PendingTx.
abbrev pub zero_pending_tx : PendingTx
zero_pending_tx = record {
  type = [];
  chain_id = [];
  nonce = [];
  from = [];
  to = [];
  gas = [];
  gas_price = null;
  max_priority_fee_per_gas = [];
  max_fee_per_gas = [];
  value = [];
  input = [];
  access_list = [];
  v = [];
  r = [];
  s = [];
  y_parity = [];
  hash = [];
}

abbrev pub pending_tx_tags : List (Text × (Json → PendingTx → Read PendingTx))
pending_tx_tags =
    (lit "type", text_field (λ t p. record p { type = t }))
    ∷ (lit "chainId", text_field (λ t p. record p { chain_id = t }))
    ∷ (lit "nonce", text_field (λ t p. record p { nonce = t }))
    ∷ (lit "from", text_field (λ t p. record p { from = t }))
    ∷ (lit "to", text_field (λ t p. record p { to = t }))
    ∷ (lit "gas", text_field (λ t p. record p { gas = t }))
    ∷ (lit "gasPrice", any_field (λ j p. record p { gas_price = j }))
    ∷ (lit "maxPriorityFeePerGas", text_field (λ t p. record p { max_priority_fee_per_gas = t }))
    ∷ (lit "maxFeePerGas", text_field (λ t p. record p { max_fee_per_gas = t }))
    ∷ (lit "value", text_field (λ t p. record p { value = t }))
    ∷ (lit "input", text_field (λ t p. record p { input = t }))
    ∷ (lit "accessList", list_field (λ js p. record p { access_list = js }))
    ∷ (lit "v", text_field (λ t p. record p { v = t }))
    ∷ (lit "r", text_field (λ t p. record p { r = t }))
    ∷ (lit "s", text_field (λ t p. record p { s = t }))
    ∷ (lit "yParity", text_field (λ t p. record p { y_parity = t }))
    ∷ (lit "hash", text_field (λ t p. record p { hash = t }))
    ∷ []

unfoldable pub unmarshal_pending_tx : Json → Option PendingTx
unfolding unmarshal
unmarshal_pending_tx = unmarshal pending_tx_tags zero_pending_tx

-- The fields of CallsRes but for calls, one at a time.
abbrev zero_call : CallsRes
zero_call = calls_res [] [] [] [] [] [] [] [] no_calls

abbrev put_calls : Calls → CallsRes → CallsRes
put_calls calls (calls_res from gas gas_used to input output value type call) =
    calls_res from gas gas_used to input output value type calls

abbrev put_from : Text → CallsRes → CallsRes
put_from t (calls_res from gas gas_used to input output value type call) =
    calls_res t gas gas_used to input output value type call

abbrev put_gas : Text → CallsRes → CallsRes
put_gas t (calls_res from gas gas_used to input output value type call) =
    calls_res from t gas_used to input output value type call

abbrev put_gas_used : Text → CallsRes → CallsRes
put_gas_used t (calls_res from gas gas_used to input output value type call) =
    calls_res from gas t to input output value type call

abbrev put_to : Text → CallsRes → CallsRes
put_to t (calls_res from gas gas_used to input output value type call) =
    calls_res from gas gas_used t input output value type call

abbrev put_input : Text → CallsRes → CallsRes
put_input t (calls_res from gas gas_used to input output value type call) =
    calls_res from gas gas_used to t output value type call

abbrev put_output : Text → CallsRes → CallsRes
put_output t (calls_res from gas gas_used to input output value type call) =
    calls_res from gas gas_used to input t value type call

abbrev put_value : Text → CallsRes → CallsRes
put_value t (calls_res from gas gas_used to input output value type call) =
    calls_res from gas gas_used to input output t type call

abbrev put_type : Text → CallsRes → CallsRes
put_type t (calls_res from gas gas_used to input output value type call) =
    calls_res from gas gas_used to input output value t call

abbrev pub calls_res_tags : List (Text × (Json → CallsRes → Read CallsRes))
calls_res_tags =
    (lit "from", text_field put_from)
    ∷ (lit "gas", text_field put_gas)
    ∷ (lit "gasUsed", text_field put_gas_used)
    ∷ (lit "to", text_field put_to)
    ∷ (lit "input", text_field put_input)
    ∷ (lit "output", text_field put_output)
    ∷ (lit "value", text_field put_value)
    ∷ (lit "type", text_field put_type)
    ∷ []

-- A key of a call: `calls` is what its value holds if it is a list of calls.
unfoldable pub assign_call : Text → Json → Read Calls → CallsRes → Read CallsRes
unfolding fits assign
assign_call key j (calls, good) c =
    if fits key (lit "calls")
    then (if good then (put_calls calls c, true) else (c, false))
    else assign calls_res_tags key j c

unfoldable mutual
  unfolding assign_call

  -- A value for a variable of type CallsRes.
  pub read_call : Json → Read CallsRes
  read_call (object fs) = read_fields fs zero_call
  read_call null = (zero_call, true)
  read_call (bool b) = (zero_call, false)
  read_call (number x) = (zero_call, false)
  read_call (string t) = (zero_call, false)
  read_call (array js) = (zero_call, false)

  pub read_fields : Fields → CallsRes → Read CallsRes
  read_fields end c = (c, true)
  read_fields (field key j rest) c =
      let (c', good) = assign_call key j (read_calls j) c in
      let (last, more) = read_fields rest c' in (last, good && more)

  -- A value for a variable of type []CallsRes: null makes it nil.
  pub read_calls : Json → Read Calls
  read_calls (array js) = read_items js
  read_calls null = (no_calls, true)
  read_calls (bool b) = (no_calls, false)
  read_calls (number x) = (no_calls, false)
  read_calls (string t) = (no_calls, false)
  read_calls (object fs) = (no_calls, false)

  pub read_items : Items → Read Calls
  read_items nil = (no_calls, true)
  read_items (cons j js) =
      let (c, good) = read_call j in
      let (rest, more) = read_items js in (call_then c rest, good && more)

-- json.Unmarshal into a CallsRes; `none` is an error.
unfoldable pub unmarshal_calls_res : Json → Option CallsRes
unfolding read_call
unmarshal_calls_res j = let (c, good) = read_call j in if good then some c else none
