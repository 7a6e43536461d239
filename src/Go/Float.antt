-- ===== src/Go/Float.antt =====
-- float64 values as their 64 bits. What the program computes with them (a product, math.Pow and
-- a conversion to int64) is a parameter, so that every theorem holds for any rounding.
use dex_executorgo.Prelude.{ℕ}
use dex_executorgo.Prelude.Int.{ℤ}

pub data Float64 : Type 0 where
  bits : ℕ → Float64

-- The literals 0, 9 and 10.
abbrev pub float_zero : Float64
float_zero = bits 0

abbrev pub float_nine : Float64
float_nine = bits 0x4022000000000000

abbrev pub float_ten : Float64
float_ten = bits 0x4024000000000000

pub record FloatOps : Type 0 where
  pub mul : Float64 → Float64 → Float64
  pub pow : Float64 → Float64 → Float64
  pub float_int64 : Float64 → ℤ
