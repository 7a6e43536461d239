-- ===== src/Program/Rounds.antt =====
-- A round of one chain's manager, as every chain sees it.
use dex_executorgo.Prelude.{
  ◌≡◌, refl, ap, ◌∙◌, inl, inr, true, false, none, some, List, [], ◌∷◌, ◌++◌, arith, if◌then◌else◌,
  Option-cases,
}
use dex_executorgo.Go.Text.{Text, text_eq}
use dex_executorgo.Go.Text.Equality.{text_eq_iff}
use dex_executorgo.Go.Dict.{Dict, lookup, insert, lookup-insert}
use dex_executorgo.Manager.Platform.{Platform}
use dex_executorgo.Manager.Loops.{NodeMgr, Action, Event, step}
use dex_executorgo.Program.{tag, advance}

module _ (P : Platform) where
  -- The actions of a chain's manager.
  unfoldable pub actions_of : Text → List (Text × Action) → List Action
  actions_of k [] = []
  actions_of k ((j, a) ∷ rest) =
      let more = actions_of k rest in if text_eq j k then a ∷ more else more

  pub actions_of-append :
      (k : Text) (l m : List (Text × Action))
      → actions_of k (l ++ m) ≡ actions_of k l ++ actions_of k m
  unfolding actions_of
  actions_of-append k [] m = refl
  actions_of-append k ((j, a) ∷ l) m = ground (arith, actions_of-append k l m)

  actions_of-tag :
      (k j : Text) (l : List Action) → actions_of k (tag j l) ≡ (if text_eq j k then l else [])
  unfolding actions_of tag
  actions_of-tag k j [] = ground arith
  actions_of-tag k j (a ∷ l) = ground (arith, actions_of-tag k j l)

  pub advance-none :
      (k : Text) (e : Event P) (managers : Dict (NodeMgr P))
      → lookup k managers ≡ none
      → advance P k e managers ≡ (managers, [])
  unfolding advance
  advance-none k e managers h = rw (h, advance) refl

  advance-some :
      (k : Text) (e : Event P) (managers : Dict (NodeMgr P)) {mgr : NodeMgr P}
      → lookup k managers ≡ some mgr
      → advance P k e managers ≡ (insert k (step P mgr e).0 managers, tag k (step P mgr e).1)
  unfolding advance
  advance-some k e managers h = rw (h, advance) refl

  -- The managers and the actions that a step leaves, as the manager of j sees them.
  pub advance-here :
      (j k : Text) (e : Event P) (managers : Dict (NodeMgr P)) {mgr : NodeMgr P}
      → lookup j managers ≡ some mgr
      → text_eq k j ≡ true
      → (lookup j (advance P k e managers).0 ≡ some (step P mgr e).0)
        × (actions_of j (advance P k e managers).1 ≡ (step P mgr e).1)
  advance-here j k e managers {mgr} h same =
      let at : lookup k managers ≡ some mgr =
        ap (λ t. lookup t managers) ((text_eq_iff k j).0 same) ∙ h in
      (
        rw (advance-some k e managers at)
            (lookup-insert k j (step P mgr e).0 managers ∙ rw same refl),
        rw (advance-some k e managers at) (actions_of-tag j k (step P mgr e).1 ∙ rw same refl),
      )

  pub advance-elsewhere :
      (j k : Text) (e : Event P) (managers : Dict (NodeMgr P))
      → text_eq k j ≡ false
      → (lookup j (advance P k e managers).0 ≡ lookup j managers)
        × (actions_of j (advance P k e managers).1 ≡ [])
  advance-elsewhere j k e managers other = elim (Option-cases (lookup k managers)) [
    | inl h ↦ rw (advance-none k e managers h) (refl, unfold actions_of in refl)
    | inr (mgr, h) ↦ rw (advance-some k e managers h) (
      (lookup-insert k j (step P mgr e).0 managers ∙ rw other refl),
      (actions_of-tag j k (step P mgr e).1 ∙ rw other refl),
    )
  ]
