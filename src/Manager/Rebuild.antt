-- ===== src/Manager/Rebuild.antt =====
-- RebuildTx: the answer to a competitor's transaction.
pub mod Fee
pub mod Guard
use dex_executorgo.Prelude.{ℕ, Option, none, some, List, [], ◌∷◌, get_elem?, if◌then◌else◌}
use dex_executorgo.Prelude.Int.{ℤ, pos, ◌+ℤ◌, ◌-ℤ◌, ltb_ℤ}
use dex_executorgo.Go.Text.{Text}
use dex_executorgo.Go.Outcome.{Outcome, returns, panics, blocks, index_range, or_panic, ◌>>=◌, ◌>>◌}
use dex_executorgo.Go.Float.{FloatOps, float_ten, float_nine}
use dex_executorgo.Types.{Signal, Header}
use dex_executorgo.Manager.Platform.{OrderLib}
use dex_executorgo.Manager.Signals.{get_last_signal_by_symbol}
use dex_executorgo.Manager.Block.{get_pending_block_num}
use dex_executorgo.Manager.Trade.{Message, trade}

-- What the clock shows when RebuildTx reads it: the second for the log line, the second for the
-- block check, and the milliseconds for each hedge.
pub record Clock : Type 0 where
  pub logged_second : ℕ
  pub checked_second : ℕ
  pub millis : ℕ → ℤ

module _ (orders : OrderLib) (floats : FloatOps) where
  -- int64(curSignal.BaseGasPrice * math.Pow(10, 9))
  unfoldable pub base_gas_price : Signal → ℤ
  base_gas_price signal =
      floats.float_int64 (floats.mul signal.base_gas_price (floats.pow float_ten float_nine))

  -- The sum and the difference are of math/big and do not wrap.
  unfoldable pub new_gas_price : Signal → ℤ → ℤ
  new_gas_price signal tx_gas_price = pos 1 +ℤ tx_gas_price -ℤ base_gas_price signal

  -- The log line computes the pending block's number once before the check does.
  unfoldable pub rebuild_tx :
      List Header → List Signal → List Text → ℤ → Clock → Outcome (List Message)
  rebuild_tx headers signals symbol_list tx_gas_price clock = do
    symbol ← or_panic index_range (get_elem? symbol_list 0)
    let signal = get_last_signal_by_symbol signals symbol
    get_pending_block_num headers clock.logged_second
    block ← get_pending_block_num headers clock.checked_second
    if ltb_ℤ signal.trade_block_num block
        then returns []
        else trade orders floats signal clock.millis (new_gas_price signal tx_gas_price)
