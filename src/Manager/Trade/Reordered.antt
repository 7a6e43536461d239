-- ===== src/Manager/Trade/Reordered.antt =====
-- Trade of core/node_mgr.go: the order in which the range over the depth details meets them.
use mathlib.Core.List.{Perm, Permᴰ, append_assoc}
use mathlib.Core.List.Permᴰ
use mathlib.Core.Logic.{∥∥₁_elim}
use dex_executorgo.Prelude.{
  ℕ, suc, ◌≡◌, refl, ap, ap₂, subst, ◌∙◌, Bool, true, false, not, ◌&&◌, List, [], ◌∷◌, ◌++◌, map,
  if◌then◌else◌, arith,
}
use dex_executorgo.Prelude.Int.{ℤ}
use dex_executorgo.Go.Text.{Text}
use dex_executorgo.Go.Text.Split.{is_free}
use dex_executorgo.Go.Outcome.{Outcome, returns, panics, blocks, index_range}
use dex_executorgo.Go.Float.{FloatOps}
use dex_executorgo.Go.Dict.{Dict}
use dex_executorgo.Types.{Signal, DepthDetail}
use dex_executorgo.Manager.Platform.{OrderLib}
use dex_executorgo.Manager.Trade.{OrderHedge, hedge_subjects}
use dex_executorgo.Manager.Trade.Hedges.{
  HedgeStep, steps_of_details, steps_of, all_have_slash, hedge_of, hedges_of, hedge_subjects_lem,
}

slash : HedgeStep → Bool
slash step = not (is_free b'/' step.item.symbol)

and_swap : (a b c : Bool) → (a && (b && c)) ≡ (b && (a && c))
and_swap a b c = ground arith

all_have_slash-perm : {xs ys : List HedgeStep} → Permᴰ xs ys → all_have_slash xs ≡ all_have_slash ys
unfolding slash
all_have_slash-perm Permᴰ.nil = refl
all_have_slash-perm (Permᴰ.cons e p) = ap₂ ◌&&◌ (ap slash e) (all_have_slash-perm p)
all_have_slash-perm (Permᴰ.swap {a} {b} {l = l} e e') =
    and_swap (slash a) (slash b) (all_have_slash l)
    ∙ ap₂ (λ x y. slash x && (slash y && all_have_slash l)) e' e
all_have_slash-perm (Permᴰ.trans p q) = all_have_slash-perm p ∙ all_have_slash-perm q

steps_of_entry : Text × List DepthDetail → List HedgeStep
steps_of_entry e = steps_of_details e.0 e.1

append_swap {ℓ} : {A : Type ℓ} (xs ys zs : List A) → Permᴰ (xs ++ (ys ++ zs)) (ys ++ (xs ++ zs))
append_swap xs ys zs =
    subst (λ l. Permᴰ l (ys ++ (xs ++ zs))) (append_assoc xs ys zs)
      (subst (Permᴰ ((xs ++ ys) ++ zs)) (append_assoc ys xs zs)
        (Permᴰ.append_right zs (Permᴰ.append_comm xs ys)))

steps_of-perm :
    {es es' : Dict (List DepthDetail)} → Permᴰ es es' → Permᴰ (steps_of es) (steps_of es')
unfolding steps_of_entry
steps_of-perm Permᴰ.nil = Permᴰ.nil
steps_of-perm (Permᴰ.cons {a} {b} {l₁} {l₂} e p) =
    subst (λ c. Permᴰ (steps_of_entry a ++ steps_of l₁) (steps_of_entry c ++ steps_of l₂)) e
      (Permᴰ.append_left (steps_of_entry a) (steps_of-perm p))
steps_of-perm (Permᴰ.swap {a} {b} {l = l} e e') =
    subst (Permᴰ (steps_of_entry a ++ (steps_of_entry b ++ steps_of l)))
      (ap₂ (λ x y. steps_of_entry x ++ (steps_of_entry y ++ steps_of l)) e' e)
      (append_swap (steps_of_entry a) (steps_of_entry b) (steps_of l))
steps_of-perm (Permᴰ.trans p q) = Permᴰ.trans (steps_of-perm p) (steps_of-perm q)

-- Both collect the same hedges, as often, or both panic.
abbrev pub SameHedges : Outcome (List OrderHedge) → Outcome (List OrderHedge) → Type 0
SameHedges (returns xs) (returns ys) = Perm xs ys
SameHedges (panics p) (panics q) = Unit
SameHedges _ _ = ⊥

SameHedges-prop : (o o' : Outcome (List OrderHedge)) → IsProp (SameHedges o o')
SameHedges-prop (returns xs) (returns ys) = hlevel
SameHedges-prop (returns xs) (panics q) = hlevel
SameHedges-prop (returns xs) blocks = hlevel
SameHedges-prop (panics p) (returns ys) = hlevel
SameHedges-prop (panics p) (panics q) = hlevel
SameHedges-prop (panics p) blocks = hlevel
SameHedges-prop blocks (returns ys) = hlevel
SameHedges-prop blocks (panics q) = hlevel
SameHedges-prop blocks blocks = hlevel

module _ (orders : OrderLib) (floats : FloatOps) (signal : Signal) (now : ℤ) where
  -- With one reading of the clock the hedges do not depend on their numbers.
  hedges_of-map :
      (steps : List HedgeStep) (i : ℕ)
      → hedges_of orders floats signal (λ _. now) steps i
        ≡ map (λ s. hedge_of orders floats signal (λ _. now) s 0) steps
  hedges_of-map [] i = refl
  hedges_of-map (s ∷ rest) i =
      ap (◌∷◌ (hedge_of orders floats signal (λ _. now) s 0)) (hedges_of-map rest (suc i))

  hedges_of-perm :
      {xs ys : List HedgeStep}
      → Permᴰ xs ys
      → Permᴰ
          (hedges_of orders floats signal (λ _. now) xs 0)
          (hedges_of orders floats signal (λ _. now) ys 0)
  hedges_of-perm {xs} {ys} p =
      rw (hedges_of-map xs 0, hedges_of-map ys 0)
        (Permᴰ.map (λ s. hedge_of orders floats signal (λ _. now) s 0) p)

  collected-SameHedges :
      (b : Bool) {xs ys : List OrderHedge}
      → Permᴰ xs ys
      → SameHedges
          (if b then returns xs else panics index_range)
          (if b then returns ys else panics index_range)
  collected-SameHedges true p = ∣ p ∣₁
  collected-SameHedges false p = tt

  reordered :
      {es es' : Dict (List DepthDetail)}
      → Permᴰ es es'
      → SameHedges
          (hedge_subjects orders floats signal (λ _. now) es [])
          (hedge_subjects orders floats signal (λ _. now) es' [])
  reordered {es} {es'} p =
      rw
        (
          hedge_subjects_lem orders floats signal (λ _. now) es,
          hedge_subjects_lem orders floats signal (λ _. now) es',
          all_have_slash-perm (steps_of-perm p),
        )
        (collected-SameHedges (all_have_slash (steps_of es')) (hedges_of-perm (steps_of-perm p)))

  -- The range over a map meets its entries in any order. Within one millisecond the order makes no
  -- difference: Trade collects the same hedges, each as often, though perhaps in another order, or
  -- it panics in both.
  pub hedge_subjects-SameHedges :
      (es es' : Dict (List DepthDetail))
      → Perm es es'
      → SameHedges
          (hedge_subjects orders floats signal (λ _. now) es [])
          (hedge_subjects orders floats signal (λ _. now) es' [])
  hedge_subjects-SameHedges es es' p = ∥∥₁_elim p (SameHedges-prop _ _) reordered
