-- ===== src/Manager/Rebuild/Guard.antt =====
-- RebuildTx of core/node_mgr.go: when it publishes.
use dex_executorgo.Prelude.{ℕ, ◌≡◌, some, List, [], ◌∷◌, get_elem?}
use dex_executorgo.Prelude.Int.{ℤ, pos, ◌+ℤ◌, ◌≤ℤ◌}
use dex_executorgo.Go.Text.{Text}
use dex_executorgo.Go.Float.{FloatOps}
use dex_executorgo.Types.{Signal, Header}
use dex_executorgo.Manager.Platform.{OrderLib}
use dex_executorgo.Manager.Signals.Last.{IsPicked}
use dex_executorgo.Manager.Block.{last_elem, block_after}
use dex_executorgo.Manager.Trade.{Message}
use dex_executorgo.Manager.Trade.Published.{Answers}
use dex_executorgo.Manager.Rebuild.{Clock, base_gas_price}

module _ (orders : OrderLib) (floats : FloatOps) where
  -- One message that answers the signal at the price.
  abbrev pub OneAnswer : Signal → (ℕ → ℤ) → ℤ → List Message → Type 0
  OneAnswer signal millis gas_price messages =
      (m : Message) × (messages ≡ m ∷ []) × Answers orders floats signal millis gas_price m

  module _ (headers : List Header) (signals : List Signal) (tx_gas_price : ℤ) (clock : Clock) where
    -- The answer to the signal that is picked for the first symbol, in time for the block that the
    -- signal trades in. The price that is bid and the signal's base price are together one over the
    -- competitor's.
    pub record IsInTime (symbol_list : List Text) (messages : List Message) : Type 0 where
      pub symbol : Text
      pub header : Header
      pub signal : Signal
      pub price : ℤ
      pub first : get_elem? symbol_list 0 ≡ some symbol
      pub last : last_elem headers ≡ some header
      pub picked : IsPicked symbol signals signal
      pub in_time : block_after header clock.checked_second ≤ℤ signal.trade_block_num
      pub bid : price +ℤ base_gas_price orders floats signal ≡ tx_gas_price +ℤ pos 1
      pub answer : OneAnswer signal clock.millis price messages
