-- ===== src/Manager/Platform.antt =====
-- What the manager takes from outside the repository: go-ethereum's transactions, the JSON decoding
-- of a signal, the constants of the order messages, and float64 arithmetic.
use dex_executorgo.Prelude.{Option, none, some}
use dex_executorgo.Prelude.Int.{ℤ}
use dex_executorgo.Go.Text.{Text}
use dex_executorgo.Go.Float.{FloatOps}
use dex_executorgo.Go.Json.{Json}
use dex_executorgo.Types.{PendingTx, Signal}
use dex_executorgo.Types.Tags.{unmarshal_pending_tx}
use dex_executorgo.Decoder.Router.{AbiLib}

-- The enumerations of warmplanet/proto, as the integers that they are.
pub record OrderLib : Type 0 where
  pub side_buy : ℤ
  pub side_sell : ℤ
  pub taker : ℤ
  pub avalanche_dex : ℤ
  pub spot : ℤ
  pub trade_dex : ℤ
  pub spot_normal : ℤ
  pub dynamic_fee_tx : ℤ
  pub exchange : ℤ → ℤ  -- common.Exchange(n)
  pub market : ℤ → ℤ  -- common.Market(n)
  pub symbol_type : ℤ → ℤ  -- common.SymbolType(n)

pub record Platform : Type 1 where
  pub abi : AbiLib
  pub orders : OrderLib
  pub floats : FloatOps
  pub Transaction : Type 0
  pub marshal_json : Transaction → Option Json  -- MarshalJSON; an error gives no text
  pub sender_hex : Transaction → Text  -- types.Sender(...).Hex()
  pub gas_price : Transaction → ℤ  -- GasPrice()
  pub signal_of : Text → Option Signal  -- json.Unmarshal into a Signal

-- The PendingTx of a transaction. Unmarshal refuses the empty text that an error leaves.
unfoldable pub pending_of : (P : Platform) → P.Transaction → Option PendingTx
unfolding unmarshal_pending_tx
pending_of P tx = elim (P.marshal_json tx) [ none ↦ none | some text ↦ unmarshal_pending_tx text ]
