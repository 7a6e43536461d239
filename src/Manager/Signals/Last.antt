-- ===== src/Manager/Signals/Last.antt =====
-- GetLastSignalBySymbol of core/node_mgr.go: which signal it returns.
use dex_executorgo.Prelude.{
  ℕ, zero, suc, ◌+◌, ◌≤◌, ◌<◌, ◌≡◌, refl, ap, ◌∙◌, ◌≢◌, true, false, some, List, [], ◌∷◌, ◌++◌, ◌⊎◌,
  inl, inr, subst, sym, Bool-cases, arith, get_elem?, get_elem?-append, length, length-append, All,
}
use dex_executorgo.Go.Text.{Text, text_eq}
use dex_executorgo.Go.Text.Equality.{text_eq_iff}
use dex_executorgo.Types.{Signal, zero_signal}
use dex_executorgo.Manager.Signals.{read, last_signal_from, get_last_signal_by_symbol}

get_elem?_in : (l : List Signal) (i : ℕ) → i < length l → (s : Signal) × (get_elem? l i ≡ some s)
get_elem?_in [] i h = elim h [ ]
get_elem?_in (x ∷ xs) zero h = (x, refl)
get_elem?_in (x ∷ xs) (suc i) h = get_elem?_in xs i (omega arith)

-- The signal is for another symbol.
abbrev pub IsOther : Text → Signal → Type 0
IsOther symbol s = s.symbol ≢ symbol

All-get_elem? :
    (symbol : Text) (l : List Signal) (i : ℕ) {s : Signal}
    → All (IsOther symbol) l
    → get_elem? l i ≡ some s
    → text_eq s.symbol symbol ≡ false
All-get_elem? symbol [] i all e = cc
All-get_elem? symbol (x ∷ xs) zero {s} all e = ground (arith, text_eq_iff s.symbol symbol)
All-get_elem? symbol (x ∷ xs) (suc i) all e = All-get_elem? symbol xs i all.1 e

-- Behind the older entries stand s and the newer ones.
at_older :
    (older newer : List Signal) (s : Signal) (n : ℕ)
    → n ≡ length older
    → get_elem? (older ++ s ∷ newer) n ≡ some s
at_older older newer s n e = rw e (get_elem?-append older s newer)

after_older :
    (older newer : List Signal) (s : Signal) (n k : ℕ)
    → n ≡ length older + suc k
    → get_elem? (older ++ s ∷ newer) n ≡ get_elem? newer k
after_older [] newer s zero k e = absurd (omega arith)
after_older [] newer s (suc n) k e = ap (get_elem? newer) (omega arith)
after_older (x ∷ older) newer s zero k e = absurd (omega arith)
after_older (x ∷ older) newer s (suc n) k e = after_older older newer s n k (omega arith)

module _ (l : List Signal) (symbol : Text) where
  step_hit :
      (i : ℕ) (x cur : Signal)
      → get_elem? l i ≡ some x
      → text_eq x.symbol symbol ≡ true
      → last_signal_from l symbol (suc i) cur ≡ x
  unfolding last_signal_from
  step_hit i x cur e h = ground arith

  step_miss :
      (i : ℕ) (x cur : Signal)
      → get_elem? l i ≡ some x
      → text_eq x.symbol symbol ≡ false
      → last_signal_from l symbol (suc i) cur ≡ last_signal_from l symbol i x
  unfolding last_signal_from
  step_miss i x cur e h = rw (e, read) (rw h)

module _ (symbol : Text) (older newer : List Signal) (s : Signal) where
  -- From any index behind s the loop comes down to s.
  last_signal_from-found :
      s.symbol ≡ symbol
      → All (IsOther symbol) newer
      → (k n : ℕ) (cur : Signal) → n ≡ length older + k
      → k ≤ length newer
      → last_signal_from (older ++ s ∷ newer) symbol (suc n) cur ≡ s
  last_signal_from-found hit others zero n cur e h =
      step_hit _ symbol n s cur (at_older older newer s n (omega arith))
        ((text_eq_iff s.symbol symbol).1 hit)
  last_signal_from-found hit others (suc k) zero cur e h = absurd (omega arith)
  last_signal_from-found hit others (suc k) (suc n) cur e h =
      let (x, at) = get_elem?_in newer k h in
      step_miss _ symbol (suc n) x cur (after_older older newer s (suc n) k e ∙ at)
        (All-get_elem? symbol newer k others at)
      ∙ last_signal_from-found hit others k n x (omega arith) (omega arith)

  -- The newest signal for the symbol is returned: one that is for the symbol, with none behind it
  -- that is.
  pub get_last_signal_by_symbol-found :
      s.symbol ≡ symbol
      → All (IsOther symbol) newer
      → get_last_signal_by_symbol (older ++ s ∷ newer) symbol ≡ s
  unfolding get_last_signal_by_symbol
  get_last_signal_by_symbol-found hit others =
      ap (λ n. last_signal_from (older ++ s ∷ newer) symbol n zero_signal)
        {y = suc (length older + length newer)} (length-append older (s ∷ newer) ∙ omega arith)
      ∙ last_signal_from-found hit others (length newer) (length older + length newer) zero_signal
          refl (omega arith)

last_signal_from-missing :
    (symbol : Text) (s : Signal) (rest : List Signal)
    → All (IsOther symbol) (s ∷ rest)
    → (n : ℕ) (cur : Signal) → n ≤ length rest
    → last_signal_from (s ∷ rest) symbol (suc n) cur ≡ s
last_signal_from-missing symbol s rest others zero cur h =
    step_miss (s ∷ rest) symbol 0 s cur refl (All-get_elem? symbol (s ∷ rest) 0 others refl)
    ∙ unfold last_signal_from in refl
last_signal_from-missing symbol s rest others (suc n) cur h =
    let (x, at) = get_elem?_in rest n h in
    step_miss (s ∷ rest) symbol (suc n) x cur at (All-get_elem? symbol (s ∷ rest) (suc n) others at)
    ∙ last_signal_from-missing symbol s rest others n x (omega arith)

-- If no signal is for the symbol, the result is not the empty signal but the oldest one that is
-- kept, which is for another symbol.
pub get_last_signal_by_symbol-missing :
    (symbol : Text) (s : Signal) (rest : List Signal)
    → All (IsOther symbol) (s ∷ rest)
    → get_last_signal_by_symbol (s ∷ rest) symbol ≡ s
unfolding get_last_signal_by_symbol
get_last_signal_by_symbol-missing symbol s rest others =
    last_signal_from-missing symbol s rest others (length rest) zero_signal (omega arith)

-- The signal that is picked for a symbol: the newest one for it, the oldest of all if none is for
-- it, and the empty one if there is none.
pub data IsPicked (symbol : Text) (l : List Signal) (s : Signal) : Type 0 where
  newest_match :
      (older newer : List Signal)
      → l ≡ older ++ s ∷ newer
      → s.symbol ≡ symbol
      → All (IsOther symbol) newer
      → IsPicked symbol l s
  oldest_other :
      (rest : List Signal) → l ≡ s ∷ rest → All (IsOther symbol) (s ∷ rest) → IsPicked symbol l s
  none_kept : l ≡ [] → s ≡ zero_signal → IsPicked symbol l s

-- The last signal for the symbol, or none.
last_match :
    (symbol : Text) (l : List Signal)
    → All (IsOther symbol) l
      ⊎ ((older : List Signal) × (s : Signal) × (newer : List Signal) × (l ≡ older ++ s ∷ newer)
          × (s.symbol ≡ symbol)
          × All (IsOther symbol) newer)
last_match symbol [] = inl tt
last_match symbol (x ∷ xs) = elim (last_match symbol xs) [
  | inr (older, s, newer, at, hit, others) ↦
      inr (x ∷ older, s, newer, ap (λ l. x ∷ l) at, hit, others)
  | inl others ↦ elim (Bool-cases (text_eq x.symbol symbol)) [
    | inl e ↦ inr ([], x, xs, refl, (text_eq_iff x.symbol symbol).0 e, others)
    | inr e ↦ inl ((λ same. grind (arith, text_eq_iff x.symbol symbol)), others)
  ]
]

IsPicked-oldest :
    (symbol : Text) (l : List Signal)
    → All (IsOther symbol) l
    → IsPicked symbol l (get_last_signal_by_symbol l symbol)
IsPicked-oldest symbol [] others =
    none_kept refl (unfold get_last_signal_by_symbol last_signal_from in refl)
IsPicked-oldest symbol (s ∷ rest) others =
    subst (IsPicked symbol (s ∷ rest))
      (sym (get_last_signal_by_symbol-missing symbol s rest others)) (oldest_other rest refl others)

pub get_last_signal_by_symbol-IsPicked :
    (symbol : Text) (l : List Signal) → IsPicked symbol l (get_last_signal_by_symbol l symbol)
get_last_signal_by_symbol-IsPicked symbol l = elim (last_match symbol l) [
  | inl others ↦ IsPicked-oldest symbol l others
  | inr (older, s, newer, at, hit, others) ↦
      subst (IsPicked symbol l)
        (sym (
          ap (λ k. get_last_signal_by_symbol k symbol) at
          ∙ get_last_signal_by_symbol-found symbol older newer s hit others))
        (newest_match older newer at hit others)
]
