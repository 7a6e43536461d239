-- ===== src/Window.antt =====
-- The lists that the program keeps of what it has seen (headers, pending transactions, signals):
-- over 200 entries the oldest 100 are cut off before the next one is appended. The same lines
-- stand in core/node_mgr.go three times and in core/node_ws.go once.
pub mod Bounds
use dex_executorgo.Prelude.{ℕ, List, [], ◌∷◌, ◌++◌, ltb, if◌then◌else◌, length, drop}

module _ {ℓ} {A : Type ℓ} where
  -- if len(l) > 200 { l = l[100:] }; l = append(l, x)
  unfoldable pub push_window : List A → A → List A
  push_window l x = (if ltb 200 (length l) then drop 100 l else l) ++ x ∷ []

  -- The list after a whole history of entries, oldest first.
  unfoldable pub push_all : List A → List A → List A
  unfolding push_window
  push_all l [] = l
  push_all l (x ∷ xs) = push_all (push_window l x) xs
