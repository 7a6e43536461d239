-- ===== src/Go/Text/Split.antt =====
-- What `split` and `replace` do to a text with a known shape.
use dex_executorgo.Prelude.{
  ℕ, ◌≡◌, refl, ap, Bool, true, false, Option, some, List, [], ◌∷◌, ◌++◌, arith, ◌==◌,
  if◌then◌else◌, All, Bool-cases, inl, inr,
}
use dex_executorgo.Go.Text.{Text, cons_head, split, replace_from, replace}

-- The byte c is nowhere in the text.
unfoldable pub is_free : ℕ → Text → Bool
is_free c [] = true
is_free c (x ∷ xs) = if x == c then false else is_free c xs

-- A text that does not hold the separator is one part, and a separator ends a part.
pub split_free : (c : ℕ) (s : Text) → is_free c s ≡ true → split c s ≡ s ∷ []
unfolding split cons_head is_free
split_free c [] h = refl
split_free c (x ∷ xs) h = ground (arith, split_free c xs)

pub split_part :
    (c : ℕ) (s rest : Text) → is_free c s ≡ true → split c (s ++ c ∷ rest) ≡ s ∷ split c rest
unfolding split cons_head is_free
split_part c [] rest h = ground arith
split_part c (x ∷ xs) rest h = ground (arith, split_part c xs rest)

cons_head-All :
    (d x : ℕ) (ps : List Text)
    → (x == d) ≡ false
    → All (λ p. is_free d p ≡ true) ps
    → All (λ p. is_free d p ≡ true) (cons_head x ps)
unfolding cons_head is_free
cons_head-All d x [] h k = ground arith
cons_head-All d x (p ∷ ps) h k = ground arith

-- A byte that the text does not hold is in none of its parts.
pub split-All :
    (c d : ℕ) (s : Text) → is_free d s ≡ true → All (λ p. is_free d p ≡ true) (split c s)
unfolding split is_free
split-All c d [] h = ground arith
split-All c d (x ∷ xs) h = ground (arith, split-All c d xs, cons_head-All d x (split c xs))

-- The separator is in no part.
pub split-All_self : (c : ℕ) (s : Text) → All (λ p. is_free c p ≡ true) (split c s)
unfolding split is_free
split-All_self c [] = ground arith
split-All_self c (x ∷ xs) = ground (arith, split-All_self c xs, cons_head-All c x (split c xs))

-- A run of bytes none of which begins `old` is copied.
replace_from-free :
    (o : ℕ) (old new : Text) (limit : Option ℕ) (s rest : Text)
    → is_free o s ≡ true
    → replace_from (o ∷ old) new limit 0 (s ++ rest) ≡ s ++ replace_from (o ∷ old) new limit 0 rest
unfolding replace_from is_free
replace_from-free o old new limit [] rest h = refl
replace_from-free o old new limit (x ∷ xs) rest h =
    ground (arith, replace_from-free o old new limit xs rest)

pub replace-free_append :
    (o : ℕ) (old new : Text) (limit : Option ℕ) (s rest : Text)
    → is_free o s ≡ true
    → replace (s ++ rest) (o ∷ old) new limit ≡ s ++ replace rest (o ∷ old) new limit
unfolding replace
replace-free_append = replace_from-free

-- With no replacement left the rest is copied.
pub replace_from-spent : (old new s : Text) → replace_from old new (some 0) 0 s ≡ s
unfolding replace_from
replace_from-spent old new [] = refl
replace_from-spent old new (x ∷ xs) = ap (◌∷◌ x) (replace_from-spent old new xs)

split_cons : (c : ℕ) (s : Text) → (p : Text) × (ps : List Text) × (split c s ≡ p ∷ ps)
unfolding split cons_head
split_cons c [] = ([], [], refl)
split_cons c (x ∷ xs) = elim (Bool-cases (x == c)) [
  | inl e ↦ ([], split c xs, rw e)
  | inr e ↦ let (p, ps, at) = split_cons c xs in (x ∷ p, ps, rw e (rw at))
]

-- A text that holds the separator has two parts at least.
pub split_held :
    (c : ℕ) (s : Text)
    → is_free c s ≡ false
    → (p : Text) × (q : Text) × (ps : List Text) × (split c s ≡ p ∷ q ∷ ps)
unfolding split cons_head is_free
split_held c [] h = cc
split_held c (x ∷ xs) h = elim (Bool-cases (x == c)) [
  | inl e ↦ let (q, ps, at) = split_cons c xs in ([], q, ps, rw e (rw at))
  | inr e ↦ let (p, q, ps, at) = split_held c xs (ground arith) in (x ∷ p, q, ps, rw e (rw at))
]
