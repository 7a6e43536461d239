-- ===== src/Decoder/Calls.antt =====
-- GetAllAddress: the addresses that a traced call and the calls below it were made to.
pub mod Order
use dex_executorgo.Prelude.{List, [], ◌∷◌, ◌++◌}
use dex_executorgo.Go.Text.{Text}
use dex_executorgo.Types.{CallsRes, calls_res, Calls, no_calls, call_then}

abbrev pub to_of : CallsRes → Text
to_of (calls_res from gas gas_used to input output value type call) = to

-- The loop over the calls: the call's own address, then those of the calls below it. The loop does
-- nothing on an empty list, as the test in front of it does.
unfoldable mutual
  pub get_all_address : Calls → List Text
  get_all_address no_calls = []
  get_all_address (call_then call rest) = call_addresses call ++ get_all_address rest

  pub call_addresses : CallsRes → List Text
  call_addresses (calls_res from gas gas_used to input output value type call) =
      to ∷ get_all_address call
