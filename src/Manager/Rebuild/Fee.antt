-- ===== src/Manager/Rebuild/Fee.antt =====
-- RebuildTx of core/node_mgr.go: the fee that it bids.
use dex_executorgo.Prelude.{
  ◌<◌, ◌≡◌, ap, ◌∙◌, subst, All, ◌++◌, false, some, List, [], ◌∷◌, arith, if◌then◌else◌,
}
use dex_executorgo.Prelude.Int.{ℤ, pos, pos_part, neg_part, ◌+ℤ◌, ◌≤ℤ◌, ltb_ℤ, int_laws}
use dex_executorgo.Go.Text.{Text}
use dex_executorgo.Go.Outcome.{returns}
use dex_executorgo.Go.Word.{two64, big_uint64}
use dex_executorgo.Go.Float.{FloatOps}
use dex_executorgo.Types.{Signal, Header}
use dex_executorgo.Manager.Platform.{OrderLib}
use dex_executorgo.Manager.Signals.{get_last_signal_by_symbol}
use dex_executorgo.Manager.Signals.Last.{IsOther, get_last_signal_by_symbol-found}
use dex_executorgo.Manager.Block.{last_elem, block_after, get_pending_block_num}
use dex_executorgo.Manager.Trade.{Message, trade}
use dex_executorgo.Manager.Trade.Published.{IsTradable, Answers, trade-Answers}
use dex_executorgo.Manager.Rebuild.{Clock, base_gas_price, new_gas_price, rebuild_tx}

not_late : (a b : ℤ) → b ≤ℤ a → ltb_ℤ a b ≡ false
not_late a b h = ground arith

-- What (*big.Int).Uint64 makes of a price, on either side of 0.
fee_up :
    (price base bid : ℤ)
    → price +ℤ base ≡ bid
    → base ≤ℤ bid
    → pos_part price < two64
    → pos (big_uint64 price) +ℤ base ≡ bid
unfolding big_uint64 ◌+ℤ◌
fee_up price base bid e h k = ground arith

fee_down :
    (price base bid : ℤ)
    → price +ℤ base ≡ bid
    → bid +ℤ pos 1 ≤ℤ base
    → neg_part price < two64
    → pos (big_uint64 price) +ℤ bid ≡ base
unfolding big_uint64 ◌+ℤ◌
fee_down price base bid e h k = ground arith

module _ (orders : OrderLib) (floats : FloatOps) where
  -- The new gas price, put back on the base price, is one over the competitor's.
  pub new_gas_price_lem :
      (signal : Signal) (tx_gas_price : ℤ)
      → new_gas_price orders floats signal tx_gas_price +ℤ base_gas_price orders floats signal
        ≡ tx_gas_price +ℤ pos 1
  unfolding new_gas_price
  new_gas_price_lem signal tx_gas_price = omega int_laws

  module _ (headers : List Header) (signals : List Signal) (symbol : Text) (rest : List Text)
      (tx_gas_price : ℤ) (clock : Clock) {header : Header}
      (known : last_elem headers ≡ some header) where
    abbrev chosen : Signal
    chosen = get_last_signal_by_symbol signals symbol

    -- With a header at hand RebuildTx is the block check in front of the trade for the newest
    -- signal of the first symbol.
    rebuild_tx_lem : rebuild_tx orders floats headers signals (symbol ∷ rest) tx_gas_price clock ≡ (
        if ltb_ℤ chosen.trade_block_num (block_after header clock.checked_second)
        then returns []
        else trade orders floats chosen clock.millis
            (new_gas_price orders floats chosen tx_gas_price))
    unfolding rebuild_tx get_pending_block_num
    rebuild_tx_lem = rw known

    -- The new gas price as an equation of numbers, for the two cases below.
    abbrev price : ℤ
    price = new_gas_price orders floats chosen tx_gas_price

    trades :
        block_after header clock.checked_second ≤ℤ chosen.trade_block_num
        → IsTradable chosen
        → (m : Message) × (rebuild_tx orders floats headers signals
              (symbol ∷ rest)
              tx_gas_price
              clock
            ≡ returns (m ∷ []))
          × Answers orders floats chosen clock.millis price m
    trades in_time tradable =
        let (m, sent, answers) = trade-Answers orders floats chosen clock.millis price tradable in
        (m, rebuild_tx_lem ∙ rw (not_late _ _ in_time) sent, answers)

    -- The bid for the signal that GetLastSignalBySymbol gives.
    chosen-outbids :
        block_after header clock.checked_second ≤ℤ chosen.trade_block_num
        → IsTradable chosen
        → base_gas_price orders floats chosen ≤ℤ tx_gas_price +ℤ pos 1
        → pos_part price < two64
        → (m : Message) × (rebuild_tx orders floats headers signals
              (symbol ∷ rest)
              tx_gas_price
              clock
            ≡ returns (m ∷ []))
          × Answers orders floats chosen clock.millis price m
          × (pos m.body.info.max_priority_fee_per_gas +ℤ base_gas_price orders floats chosen
              ≡ tx_gas_price +ℤ pos 1)
    chosen-outbids in_time tradable enough fits =
        let (m, sent, answers) = trades in_time tradable in
        (
          m,
          sent,
          answers,
          ap (λ f. pos f +ℤ base_gas_price orders floats chosen) answers.fee
              ∙ fee_up price (base_gas_price orders floats chosen) (tx_gas_price +ℤ pos 1)
                  (new_gas_price_lem chosen tx_gas_price) enough fits,
        )

    -- With a header kept, in time, and for a signal whose texts can be split: if the competitor bids
    -- more than one below the base price, and the difference fits 64 bits, its sign is lost. One
    -- message is published, and its priority fee is the base price less that bid less one.
    pub rebuild_tx-underbid :
        block_after header clock.checked_second ≤ℤ chosen.trade_block_num
        → IsTradable chosen
        → tx_gas_price +ℤ pos 2 ≤ℤ base_gas_price orders floats chosen
        → neg_part price < two64
        → (m : Message) × (rebuild_tx orders floats headers signals
              (symbol ∷ rest)
              tx_gas_price
              clock
            ≡ returns (m ∷ []))
          × (pos m.body.info.max_priority_fee_per_gas +ℤ (tx_gas_price +ℤ pos 1)
              ≡ base_gas_price orders floats chosen)
    rebuild_tx-underbid in_time tradable low fits =
        let (m, sent, answers) = trades in_time tradable in
        (
          m,
          sent,
          ap (λ f. pos f +ℤ (tx_gas_price +ℤ pos 1)) answers.fee
              ∙ fee_down price (base_gas_price orders floats chosen) (tx_gas_price +ℤ pos 1)
                  (new_gas_price_lem chosen tx_gas_price) (omega int_laws) fits,
        )

  -- With a header kept, for the newest signal for the first symbol, in time for the block that it
  -- trades in and with texts that can be split, RebuildTx publishes one message. It answers that
  -- signal, and its priority fee and the signal's base price are together one over the competitor's
  -- gas price, if that is at least the base price less one and the difference fits 64 bits.
  pub rebuild_tx-outbids :
      (headers : List Header) (older newer : List Signal) (signal : Signal) (rest : List Text)
      (tx_gas_price : ℤ) (clock : Clock) {symbol : Text} {header : Header}
      → last_elem headers ≡ some header
      → signal.symbol ≡ symbol
      → All (IsOther symbol) newer
      → block_after header clock.checked_second ≤ℤ signal.trade_block_num
      → IsTradable signal
      → base_gas_price orders floats signal ≤ℤ tx_gas_price +ℤ pos 1
      → pos_part (new_gas_price orders floats signal tx_gas_price) < two64
      → (m : Message) × (rebuild_tx orders floats headers
            (older ++ signal ∷ newer)
            (symbol ∷ rest)
            tx_gas_price
            clock
          ≡ returns (m ∷ []))
        × Answers orders floats signal clock.millis
            (new_gas_price orders floats signal tx_gas_price)
            m
        × (pos m.body.info.max_priority_fee_per_gas +ℤ base_gas_price orders floats signal
            ≡ tx_gas_price +ℤ pos 1)
  rebuild_tx-outbids headers older newer signal rest tx_gas_price clock {symbol} known hit others
        in_time tradable enough fits =
      let found : get_last_signal_by_symbol (older ++ signal ∷ newer) symbol ≡ signal =
        get_last_signal_by_symbol-found symbol older newer signal hit others in
      let (m, sent, answers, bid) =
        chosen-outbids headers (older ++ signal ∷ newer) symbol rest tx_gas_price clock known
          (rw found in_time) (rw found tradable) (rw found enough) (rw found fits) in
      let (answers', bid') =
        subst
          (λ s.
            Answers orders floats s clock.millis (new_gas_price orders floats s tx_gas_price) m
            × (pos m.body.info.max_priority_fee_per_gas +ℤ base_gas_price orders floats s
                ≡ tx_gas_price +ℤ pos 1))
          found (answers, bid) in
      (m, sent, answers', bid')
