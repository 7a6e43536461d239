-- ===== src/Manager/Trade/Published.antt =====
-- Trade of core/node_mgr.go: when it publishes, and what.
use dex_executorgo.Prelude.{
  ℕ, ◌≡◌, ◌≢◌, arith, refl, ap, ◌∙◌, ◌⊎◌, inl, inr, true, false, [], ◌∷◌, get_elem?, Bool-cases,
}
use dex_executorgo.Prelude.Int.{ℤ}
use dex_executorgo.Go.Text.{Text, lit, split, text_eq}
use dex_executorgo.Go.Text.Equality.{text_eq_iff}
use dex_executorgo.Go.Text.Split.{is_free, split_free, split_held}
use dex_executorgo.Go.Outcome.{returns, panics, index_range, ◌>>=◌}
use dex_executorgo.Go.Word.{big_uint64}
use dex_executorgo.Go.Float.{FloatOps}
use dex_executorgo.Types.{Signal}
use dex_executorgo.Manager.Platform.{OrderLib}
use dex_executorgo.Manager.Trade.{Message, trade_side, hedge_subjects, message, trade}
use dex_executorgo.Manager.Trade.Hedges.{
  steps_of, all_have_slash, hedges_of, hedge_subjects_lem, text_of, read_two,
}

-- The texts of the signal that Trade splits can be split.
pub record IsTradable (signal : Signal) : Type 0 where
  pub has_quote : is_free b'_' signal.symbol ≡ false
  pub has_slashes : all_have_slash (steps_of signal.depth_details) ≡ true

-- A text is for the side: "buy" for a purchase, every other one for a sale.
pub data IsSide (orders : OrderLib) : Text → ℤ → Type 0 where
  buys : {text : Text} → text ≡ lit "buy" → IsSide orders text orders.side_buy
  sells : {text : Text} → text ≢ lit "buy" → IsSide orders text orders.side_sell

trade_side-IsSide :
    (orders : OrderLib) (floats : FloatOps) (text : Text)
    → IsSide orders text (trade_side orders floats text)
unfolding trade_side
trade_side-IsSide orders floats text = elim (Bool-cases (text_eq text (lit "buy"))) [
  | inl e ↦ rw e (buys ((text_eq_iff text (lit "buy")).0 e))
  | inr e ↦ rw e (sells (λ same. grind (arith, text_eq_iff text (lit "buy"))))
]

module _ (orders : OrderLib) (floats : FloatOps) (signal : Signal) (clock : ℕ → ℤ) where
  -- What the message for a signal and a gas price says.
  pub record Answers (gas_price : ℤ) (m : Message) : Type 0 where
    pub req_no : m.body.req_no ≡ signal.regist_id
    pub hedge : m.body.hedge ≡ signal.hedge_id
    pub side : IsSide orders signal.side m.body.trade_side
    pub fee : m.body.info.max_priority_fee_per_gas ≡ big_uint64 gas_price
    pub hedges :
        m.body.hedge_expect ≡ hedges_of orders floats signal clock (steps_of signal.depth_details) 0

  -- The parts of the signal's symbol.
  abbrev token : Text
  token = text_of (get_elem? (split b'_' signal.symbol) 0)

  abbrev quote : Text
  quote = text_of (get_elem? (split b'_' signal.symbol) 1)

  with_hedges :
      (gas_price : ℤ)
      → is_free b'_' signal.symbol ≡ false
      → trade orders floats signal clock gas_price ≡ (
          hedge_subjects orders floats signal clock signal.depth_details [] >>= λ hedges.
          returns (message orders floats signal clock gas_price token quote hedges ∷ []))
  unfolding trade
  with_hedges gas_price h =
      let (p, q, ps, at) = split_held b'_' signal.symbol h in
      read_two (split b'_' signal.symbol)
        (λ t u. hedge_subjects orders floats signal clock signal.depth_details [] >>= λ hedges.
          returns (message orders floats signal clock gas_price t u hedges ∷ []))
        at

  -- For a signal whose texts can be split exactly one message is published. It carries the signal's
  -- ids and its side, a purchase for "buy" and a sale for any other text, the gas price as priority fee, and a hedge for each step of the depth details.
  pub trade-Answers :
      (gas_price : ℤ)
      → IsTradable signal
      → (m : Message) × (trade orders floats signal clock gas_price ≡ returns (m ∷ []))
        × Answers gas_price m
  trade-Answers gas_price tradable = (
    sent,
    with_hedges gas_price tradable.has_quote
        ∙ ap
            (λ o. o >>= λ hedges.
              returns (message orders floats signal clock gas_price token quote hedges ∷ []))
            {y = returns (hedges_of orders floats signal clock (steps_of signal.depth_details) 0)}
            (hedge_subjects_lem orders floats signal clock signal.depth_details
              ∙ rw tradable.has_slashes refl),
    unfold message in
        record {
          req_no = refl;
          hedge = refl;
          side = trade_side-IsSide orders floats signal.side;
          fee = refl;
          hedges = refl;
        },
  )
    where
      sent : Message
      sent =
          message orders floats signal clock gas_price token quote
            (hedges_of orders floats signal clock (steps_of signal.depth_details) 0)

  -- For any other signal Trade panics, and nothing is published.
  pub trade-panics :
      (gas_price : ℤ)
      → (is_free b'_' signal.symbol ≡ true)
        ⊎ (all_have_slash (steps_of signal.depth_details) ≡ false)
      → trade orders floats signal clock gas_price ≡ panics index_range
  trade-panics gas_price (inl e) = unfold trade in rw (split_free b'_' signal.symbol e)
  trade-panics gas_price (inr e) = elim (Bool-cases (is_free b'_' signal.symbol)) [
    | inl f ↦ unfold trade in rw (split_free b'_' signal.symbol f)
    | inr f ↦
        with_hedges gas_price f
        ∙ ap
            (λ o. o >>= λ hedges.
              returns (message orders floats signal clock gas_price token quote hedges ∷ []))
            {y = panics index_range}
            (hedge_subjects_lem orders floats signal clock signal.depth_details ∙ rw e refl)
  ]
