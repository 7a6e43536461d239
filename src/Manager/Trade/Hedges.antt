-- ===== src/Manager/Trade/Hedges.antt =====
-- Trade of core/node_mgr.go: its three loops and the hedges that they collect.
use dex_executorgo.Prelude.{
  ℕ, suc, ◌≡◌, refl, ap, sym, ◌∙◌, inl, inr, Bool, true, not, ◌&&◌, Option, none, some, List, [],
  ◌∷◌, ◌++◌, get_elem?, length, length-append, arith, Bool-cases, if◌then◌else◌,
}
use mathlib.Core.List.{append_assoc, append-nil}
use dex_executorgo.Prelude.Int.{ℤ}
use dex_executorgo.Go.Text.{Text, split}
use dex_executorgo.Go.Text.Split.{is_free, split_free, split_held}
use dex_executorgo.Go.Outcome.{
  Outcome, returns, panics, index_range, or_panic, ◌>>=◌, >>=-congr, >>=-assoc,
}
use dex_executorgo.Go.Float.{FloatOps}
use dex_executorgo.Go.Dict.{Dict}
use dex_executorgo.Types.{Signal, SignalPath, DepthDetail}
use dex_executorgo.Manager.Platform.{OrderLib}
use dex_executorgo.Manager.Trade.{
  OrderHedge, order_hedge, hedge_path, hedge_details, hedge_subjects,
}

-- A step of a path with the subject and the detail that it stands under.
pub record HedgeStep : Type 0 where
  pub subject : Text
  pub detail : DepthDetail
  pub item : SignalPath

abbrev steps_of_path : Text → DepthDetail → List SignalPath → List HedgeStep
steps_of_path subject detail [] = []
steps_of_path subject detail (item ∷ rest) =
    record { subject = subject; detail = detail; item = item } ∷ steps_of_path subject detail rest

abbrev pub steps_of_details : Text → List DepthDetail → List HedgeStep
steps_of_details subject [] = []
steps_of_details subject (detail ∷ rest) =
    steps_of_path subject detail detail.path ++ steps_of_details subject rest

-- All the steps of a signal's depth details, in the order of the entries.
abbrev pub steps_of : Dict (List DepthDetail) → List HedgeStep
steps_of [] = []
steps_of ((subject, details) ∷ rest) = steps_of_details subject details ++ steps_of rest

-- Every symbol has a slash.
abbrev pub all_have_slash : List HedgeStep → Bool
all_have_slash [] = true
all_have_slash (step ∷ rest) = not (is_free b'/' step.item.symbol) && all_have_slash rest

abbrev pub text_of : Option Text → Text
text_of none = []
text_of (some t) = t

-- The part number i of a symbol.
abbrev pub part : ℕ → Text → Text
part i symbol = text_of (get_elem? (split b'/' symbol) i)

-- With two parts at hand both are read.
pub read_two {ℓ} :
    {B : Type ℓ} (ps : List Text) {p q : Text} {r : List Text} (f : Text → Text → Outcome B)
    → ps ≡ p ∷ q ∷ r
    → (or_panic index_range (get_elem? ps 0) >>= λ base.
        or_panic index_range (get_elem? ps 1) >>= λ quote. f base quote)
      ≡ f (text_of (get_elem? ps 0)) (text_of (get_elem? ps 1))
read_two ps f e = rw e

module _ (orders : OrderLib) (floats : FloatOps) (signal : Signal) (clock : ℕ → ℤ) where
  -- The hedge of one step: its token and quote are the first two parts of the step's symbol.
  abbrev pub hedge_of : HedgeStep → ℕ → OrderHedge
  hedge_of step i =
      order_hedge orders floats signal step.subject step.detail step.item (clock i)
        (part 0 step.item.symbol) (part 1 step.item.symbol)

  -- The hedges of the steps, numbered from i.
  abbrev pub hedges_of : List HedgeStep → ℕ → List OrderHedge
  hedges_of [] i = []
  hedges_of (step ∷ rest) i = hedge_of step i ∷ hedges_of rest (suc i)

  -- The three loops as one.
  hedge_steps : List HedgeStep → List OrderHedge → Outcome (List OrderHedge)
  hedge_steps [] hedges = returns hedges
  hedge_steps (step ∷ rest) hedges = do
    base ← or_panic index_range (get_elem? (split b'/' step.item.symbol) 0)
    quote ← or_panic index_range (get_elem? (split b'/' step.item.symbol) 1)
    let hedge =
        order_hedge orders floats signal step.subject step.detail step.item (clock (length hedges))
          base quote
    hedge_steps rest (hedges ++ hedge ∷ [])

  hedge_steps-append :
      (xs ys : List HedgeStep) (hedges : List OrderHedge)
      → hedge_steps (xs ++ ys) hedges ≡ (hedge_steps xs hedges >>= hedge_steps ys)
  unfolding hedge_steps
  hedge_steps-append [] ys hedges = refl
  hedge_steps-append (step ∷ xs) ys hedges =
      >>=-congr (or_panic index_range (get_elem? (split b'/' step.item.symbol) 0)) (λ base.
        >>=-congr (or_panic index_range (get_elem? (split b'/' step.item.symbol) 1))
          (λ quote. hedge_steps-append xs ys _)
        ∙ sym (>>=-assoc (or_panic index_range (get_elem? (split b'/' step.item.symbol) 1)) _ _))
      ∙ sym (>>=-assoc (or_panic index_range (get_elem? (split b'/' step.item.symbol) 0)) _ _)

  hedge_path-hedge_steps :
      (subject : Text) (detail : DepthDetail) (path : List SignalPath) (hedges : List OrderHedge)
      → hedge_path orders floats signal clock subject detail path hedges
        ≡ hedge_steps (steps_of_path subject detail path) hedges
  unfolding hedge_path hedge_steps
  hedge_path-hedge_steps subject detail [] hedges = refl
  hedge_path-hedge_steps subject detail (item ∷ rest) hedges =
      >>=-congr (or_panic index_range (get_elem? (split b'/' item.symbol) 0)) (λ base.
        >>=-congr (or_panic index_range (get_elem? (split b'/' item.symbol) 1))
          (λ quote. hedge_path-hedge_steps subject detail rest _))

  hedge_details-hedge_steps :
      (subject : Text) (details : List DepthDetail) (hedges : List OrderHedge)
      → hedge_details orders floats signal clock subject details hedges
        ≡ hedge_steps (steps_of_details subject details) hedges
  unfolding hedge_details
  hedge_details-hedge_steps subject [] hedges = unfold hedge_steps in refl
  hedge_details-hedge_steps subject (detail ∷ rest) hedges =
      ap (λ m. m >>= hedge_details orders floats signal clock subject rest)
        (hedge_path-hedge_steps subject detail detail.path hedges)
      ∙ >>=-congr (hedge_steps (steps_of_path subject detail detail.path) hedges)
          (λ more. hedge_details-hedge_steps subject rest more)
      ∙ sym (hedge_steps-append (steps_of_path subject detail detail.path) _ hedges)

  hedge_subjects-hedge_steps :
      (entries : Dict (List DepthDetail)) (hedges : List OrderHedge)
      → hedge_subjects orders floats signal clock entries hedges
        ≡ hedge_steps (steps_of entries) hedges
  unfolding hedge_subjects
  hedge_subjects-hedge_steps [] hedges = unfold hedge_steps in refl
  hedge_subjects-hedge_steps ((subject, details) ∷ rest) hedges =
      ap (λ m. m >>= hedge_subjects orders floats signal clock rest)
        (hedge_details-hedge_steps subject details hedges)
      ∙ >>=-congr (hedge_steps (steps_of_details subject details) hedges)
          (λ more. hedge_subjects-hedge_steps rest more)
      ∙ sym (hedge_steps-append (steps_of_details subject details) _ hedges)

  -- One step of the loop: it goes on with the hedge of the step, or panics.
  hedge_step_lem :
      (step : HedgeStep) (rest : List HedgeStep) (hedges : List OrderHedge)
      → hedge_steps (step ∷ rest) hedges ≡ (
          if is_free b'/' step.item.symbol
          then panics index_range
          else hedge_steps rest (hedges ++ hedge_of step (length hedges) ∷ []))
  unfolding hedge_steps
  hedge_step_lem step rest hedges = elim (Bool-cases (is_free b'/' step.item.symbol)) [
    | inl e ↦ rw (e, split_free b'/' step.item.symbol e) (refl)
    | inr e ↦
        let (p, q, ps, at) = split_held b'/' step.item.symbol e in
        rw e (
          read_two (split b'/' step.item.symbol)
            (λ base quote. hedge_steps rest (
              hedges
              ++ order_hedge orders floats signal step.subject step.detail step.item
                  (clock (length hedges)) base quote
                ∷ []))
            at)
  ]

  numbered :
      (step : HedgeStep) (rest : List HedgeStep) (hedges : List OrderHedge)
      → (hedges ++ hedge_of step (length hedges) ∷ [])
          ++ hedges_of rest (length (hedges ++ hedge_of step (length hedges) ∷ []))
        ≡ hedges ++ hedge_of step (length hedges) ∷ hedges_of rest (suc (length hedges))
  numbered step rest hedges =
      append_assoc hedges (hedge_of step (length hedges) ∷ []) _
      ∙ ap (λ n. hedges ++ hedge_of step (length hedges) ∷ hedges_of rest n)
          {y = suc (length hedges)}
          (length-append hedges (hedge_of step (length hedges) ∷ []) ∙ omega arith)

  hedge_steps_lem :
      (steps : List HedgeStep) (hedges : List OrderHedge)
      → hedge_steps steps hedges ≡ (
          if all_have_slash steps
          then returns (hedges ++ hedges_of steps (length hedges))
          else panics index_range)
  hedge_steps_lem [] hedges = unfold hedge_steps in ap returns (sym (append-nil hedges))
  hedge_steps_lem (step ∷ rest) hedges =
      hedge_step_lem step rest hedges ∙ elim (Bool-cases (is_free b'/' step.item.symbol)) [
        | inl e ↦ rw e
        | inr e ↦ rw e (
            hedge_steps_lem rest (hedges ++ hedge_of step (length hedges) ∷ [])
            ∙ ap (λ l. if all_have_slash rest then returns l else panics index_range)
                (numbered step rest hedges))
      ]

  -- The hedges of a trade: one for each step of each path of each detail, in that order, if every
  -- step's symbol has a slash, and a panic if some symbol has none.
  pub hedge_subjects_lem :
      (entries : Dict (List DepthDetail))
      → hedge_subjects orders floats signal clock entries [] ≡ (
          if all_have_slash (steps_of entries)
          then returns (hedges_of (steps_of entries) 0)
          else panics index_range)
  hedge_subjects_lem entries =
      hedge_subjects-hedge_steps entries [] ∙ hedge_steps_lem (steps_of entries) []
