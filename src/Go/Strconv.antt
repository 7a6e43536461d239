-- ===== src/Go/Strconv.antt =====
-- strconv.Itoa.
use dex_executorgo.Prelude.{
  ℕ, zero, suc, ◌+◌, ◌-◌, ◌*◌, ◌/◌, ◌%◌, ◌<◌, ◌≡◌, refl, ap, ◌∙◌, [], ◌∷◌, ltb, if◌then◌else◌,
  arith, Bool-cases, inl, inr,
}
use dex_executorgo.Prelude.Int.{ℤ, pos, negsuc}
use dex_executorgo.Go.Text.{Text, lit}

-- The decimal digits of n in front of a text; more fuel than n is enough (digits_value).
digits_onto : ℕ → ℕ → Text → Text
digits_onto zero n acc = acc
digits_onto (suc fuel) n acc =
    let rest = digits_onto fuel (n / 10) ((b'0' + n % 10) ∷ acc) in
    if ltb n 10 then (b'0' + n) ∷ acc else rest

unfoldable pub itoa : ℤ → Text
unfolding digits_onto
itoa (pos n) = digits_onto (suc n) n []
itoa (negsuc n) = b'-' ∷ digits_onto (suc (suc n)) (suc n) []

-- The number that a text of digits stands for, read on from acc.
pub value : Text → ℕ → ℕ
value [] acc = acc
value (c ∷ cs) acc = value cs (acc * 10 + (c - b'0'))

digits_onto_value :
    (fuel n : ℕ) (acc : Text) → n < fuel → value (digits_onto fuel n acc) 0 ≡ value acc n
unfolding value digits_onto
digits_onto_value zero n acc h = elim h [ ]
digits_onto_value (suc fuel) n acc h = elim (Bool-cases (ltb n 10)) [
  | inl small ↦ rw small (ap (value acc) (omega arith))
  | inr large ↦
      rw large (digits_onto_value fuel (n / 10) _ (ground arith) ∙ ap (value acc) (omega arith))
]

-- The digits stand for the number.
pub digits_value : (n : ℕ) → value (itoa (pos n)) 0 ≡ n
unfolding itoa value
digits_value n = digits_onto_value (suc n) n [] (omega arith)

itoa_negative : itoa (negsuc 41) ≡ lit "-42"
unfolding itoa
itoa_negative = refl
