-- ===== src/Window/Bounds.antt =====
-- The windows of core/node_mgr.go and core/node_ws.go: which entries they still hold.
use dex_executorgo.Prelude.{
  ℕ, ◌+◌, ◌-◌, ◌*◌, ◌/◌, ◌≤◌, ◌<◌, ◌≡◌, refl, ap, ◌∙◌, List, [], ◌∷◌, ◌++◌, length, drop,
  length-append, length-drop, drop-append, drop-drop, arith, ◌⊎◌, ltb, lt→ltb, inl, inr, false,
}
use mathlib.Core.List.{append_assoc, append-nil}
use dex_executorgo.Window.{push_window, push_all}

-- The number of entries that a history of n of them has cut off.
abbrev pub dropped : ℕ → ℕ
dropped n = 100 * ((n - 102) / 100)

ltb_eq_false : (a b : ℕ) → b ≤ a → ltb a b ≡ false
ltb_eq_false a b h = ground arith

module _ {ℓ} {A : Type ℓ} where
  push_window_short : (l : List A) (x : A) → length l ≤ 200 → push_window l x ≡ l ++ x ∷ []
  unfolding push_window
  push_window_short l x h = rw (ltb_eq_false 200 (length l) h)

  push_window_full : (l : List A) (x : A) → 200 < length l → push_window l x ≡ drop 100 l ++ x ∷ []
  unfolding push_window
  push_window_full l x h = rw (lt→ltb 200 (length l) h)

  short_or_full : (l : List A) → (length l ≤ 200) ⊎ (200 < length l)
  short_or_full l = omega arith

  -- The new entry is the last one, and a window of at most 201 entries stays one.
  pub length-push_window :
      (l : List A) (x : A)
      → length l ≤ 201
      → (1 ≤ length (push_window l x)) × (length (push_window l x) ≤ 201)
  length-push_window l x h = elim (short_or_full l) [
    | inl short ↦ rw (push_window_short l x short, length-append l (x ∷ [])) (omega arith)
    | inr full ↦
        rw (push_window_full l x full, length-append (drop 100 l) (x ∷ []), length-drop 100 l)
          (omega arith)
  ]

  cut :
      (past : List A) (x : A) (d e : ℕ)
      → d ≡ e
      → e ≤ length past
      → drop d past ++ x ∷ [] ≡ drop e (past ++ x ∷ [])
  cut past x d e p h = rw (p, drop-append e past (x ∷ []) h)

  -- One more entry of the history moves the window one entry on.
  push_window-drop :
      (past : List A) (x : A)
      → push_window (drop (dropped (length past)) past) x
        ≡ drop (dropped (length (past ++ x ∷ []))) (past ++ x ∷ [])
  push_window-drop past x = elim (short_or_full (drop (dropped (length past)) past)) [
    | inl short ↦
        push_window_short _ x short
        ∙ cut past x _ _ (omega (arith, kept, grown)) (omega (arith, kept, grown))
    | inr full ↦
        push_window_full _ x full
        ∙ ap (λ l. l ++ x ∷ []) (drop-drop 100 (dropped (length past)) past)
        ∙ cut past x _ _ (omega (arith, kept, grown)) (omega (arith, kept, grown))
  ]
    where
      kept : length (drop (dropped (length past)) past) ≡ length past - dropped (length past)
      kept = length-drop _ past

      grown : length (past ++ x ∷ []) ≡ length past + 1
      grown = length-append past (x ∷ [])

  push_all-drop :
      (past xs : List A)
      → push_all (drop (dropped (length past)) past) xs
        ≡ drop (dropped (length (past ++ xs))) (past ++ xs)
  unfolding push_all
  push_all-drop past [] = rw append-nil refl
  push_all-drop past (x ∷ xs) = rw (push_window-drop past x) (
      push_all-drop (past ++ x ∷ []) xs
      ∙ ap (λ l. drop (dropped (length l)) l) (append_assoc past (x ∷ []) xs))

  -- After a history of n entries the window holds all of them but the oldest
  -- 100 * ((n - 102) / 100), in order: at most 201 entries, and never fewer than the newest 101
  -- of a history that has as many.
  pub push_all_lem :
      (history : List A)
      → (push_all [] history ≡ drop (dropped (length history)) history)
        × (length (push_all [] history) ≤ 201)
        × ((102 ≤ length history) → 102 ≤ length (push_all [] history))
  push_all_lem history = (
    push_all-drop [] history,
    rw (push_all-drop [] history, length-drop _ history) (omega arith),
    λ h. rw (push_all-drop [] history, length-drop _ history) (omega arith),
  )
