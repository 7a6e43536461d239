-- ===== src/Go/Outcome.antt =====
-- How a piece of Go code ends: it returns, it panics, or it blocks its goroutine.
use mathlib.Core.Path.{fun_ext}
use dex_executorgo.Prelude.{◌⊎◌, inl, inr, ◌≡◌, refl, ap, Option, none, some}

pub data Panic : Type 0 where
  index_range slice_bounds nil_deref send_closed close_closed explicit : Panic

pub data Outcome {ℓ} (A : Type ℓ) : Type ℓ where
  returns : A → Outcome A
  panics : Panic → Outcome A
  blocks : Outcome A

-- `abbrev`, so that `returns a >>= f` computes wherever it stands.
infixl 5 ◌>>=◌ ◌>>◌
abbrev pub ◌>>=◌ {ℓ κ} : {A : Type ℓ} {B : Type κ} → Outcome A → (A → Outcome B) → Outcome B
returns a >>= f = f a
panics p >>= f = panics p
blocks >>= f = blocks

abbrev pub ◌>>◌ {ℓ κ} : {A : Type ℓ} {B : Type κ} → Outcome A → Outcome B → Outcome B
m >> k = m >>= λ _. k

-- An operation that panics where its value is missing, such as l[i] or s[lo:hi].
abbrev pub or_panic {ℓ} : {A : Type ℓ} → Panic → Option A → Outcome A
or_panic p none = panics p
or_panic p (some a) = returns a

pub >>=-eq-returns {ℓ κ} :
    {A : Type ℓ} {B : Type κ} (m : Outcome A) (f : A → Outcome B) {b : B}
    → (m >>= f) ≡ returns b
    → (a : A) × (m ≡ returns a) × (f a ≡ returns b)
>>=-eq-returns (returns a) f h = (a, refl, h)
>>=-eq-returns (panics p) f h = cc
>>=-eq-returns blocks f h = cc

-- What holds of the value, if there is one.
abbrev pub Yields {ℓ κ} : {A : Type ℓ} → (A → Type κ) → Outcome A → Type κ
Yields P (returns a) = P a
Yields P (panics p) = Unit
Yields P blocks = Unit

pub Yields-bind {ℓ κ μ} :
    {A : Type ℓ} {B : Type κ} (P : B → Type μ) (m : Outcome A) (f : A → Outcome B)
    → ((a : A) → Yields P (f a))
    → Yields P (m >>= f)
Yields-bind P (returns a) f h = h a
Yields-bind P (panics p) f h = tt
Yields-bind P blocks f h = tt

pub >>=-congr {ℓ κ} :
    {A : Type ℓ} {B : Type κ} (m : Outcome A) {f g : A → Outcome B}
    → ((a : A) → f a ≡ g a)
    → (m >>= f) ≡ (m >>= g)
>>=-congr m h = ap (λ k. m >>= k) (fun_ext h)

pub >>=-assoc {ℓ κ μ} :
    {A : Type ℓ} {B : Type κ} {C : Type μ} (m : Outcome A) (f : A → Outcome B) (g : B → Outcome C)
    → (m >>= f >>= g) ≡ (m >>= λ a. f a >>= g)
>>=-assoc (returns a) f g = refl
>>=-assoc (panics p) f g = refl
>>=-assoc blocks f g = refl

pub Yields-map {ℓ κ μ} :
    {A : Type ℓ} (P : A → Type κ) (Q : A → Type μ)
    → ((a : A) → P a → Q a)
    → (m : Outcome A) → Yields P m
    → Yields Q m
Yields-map P Q f (returns a) h = f a h
Yields-map P Q f (panics p) h = tt
Yields-map P Q f blocks h = tt

pub Outcome-cases {ℓ} :
    {A : Type ℓ} (o : Outcome A)
    → ((a : A) × (o ≡ returns a)) ⊎ (((p : Panic) × (o ≡ panics p)) ⊎ (o ≡ blocks))
Outcome-cases (returns a) = inl (a, refl)
Outcome-cases (panics p) = inr (inl (p, refl))
Outcome-cases blocks = inr (inr refl)
