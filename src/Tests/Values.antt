-- ===== src/Tests/Values.antt =====
-- The JSON values that the node and go-ethereum give for the runs' data.
use dex_executorgo.Prelude.{[], ◌∷◌}
use dex_executorgo.Go.Text.{Text, lit}
use dex_executorgo.Go.Json.{
  Json, string, array, object, Items, nil, cons, Fields, end, field, items_of,
}
use dex_executorgo.Types.{PendingTx, CallsRes, calls_res, Calls, no_calls, call_then}

-- The value is left out if it is empty, and so are the calls.
abbrev value_fields : Text → Fields → Fields
value_fields [] rest = rest
value_fields (c ∷ cs) rest = field (lit "value") (string (c ∷ cs)) rest

-- A node's answer for a trace.
unfoldable mutual
  pub json_of_call : CallsRes → Json
  json_of_call (calls_res from gas gas_used to input output value type call) = object (
      field (lit "from") (string from) (
        field (lit "gas") (string gas) (
          field (lit "gasUsed") (string gas_used) (
            field (lit "to") (string to) (
              field (lit "input") (string input) (
                field (lit "output") (string output)
                  (value_fields value (field (lit "type") (string type) (calls_fields call)))))))))

  calls_fields : Calls → Fields
  calls_fields no_calls = end
  calls_fields (call_then c cs) =
      field (lit "calls") (array (cons (json_of_call c) (items_of_calls cs))) end

  items_of_calls : Calls → Items
  items_of_calls no_calls = nil
  items_of_calls (call_then c cs) = cons (json_of_call c) (items_of_calls cs)

-- A transaction as go-ethereum gives it.
unfoldable pub json_of_pending_tx : PendingTx → Json
json_of_pending_tx tx = object (
    field (lit "type") (string tx.type) (
      field (lit "chainId") (string tx.chain_id) (
        field (lit "nonce") (string tx.nonce) (
          field (lit "from") (string tx.from) (
            field (lit "to") (string tx.to) (
              field (lit "gas") (string tx.gas) (
                field (lit "gasPrice") tx.gas_price (
                  field (lit "maxPriorityFeePerGas") (string tx.max_priority_fee_per_gas) (
                    field (lit "maxFeePerGas") (string tx.max_fee_per_gas) (
                      field (lit "value") (string tx.value) (
                        field (lit "input") (string tx.input) (
                          field (lit "accessList") (array (items_of tx.access_list)) (
                            field (lit "v") (string tx.v) (
                              field (lit "r") (string tx.r) (
                                field (lit "s") (string tx.s) (
                                  field (lit "yParity") (string tx.y_parity)
                                    (field (lit "hash") (string tx.hash) end)))))))))))))))))
