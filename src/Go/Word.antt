-- ===== src/Go/Word.antt =====
-- Go's 64-bit integers and the conversions between them, and what the program uses of math/big.
use dex_executorgo.Prelude.{ℕ, ◌+◌, ◌*◌, ◌-◌, ◌%◌, ◌≤◌, ◌<◌, ◌≡◌, arith, ltb, if◌then◌else◌}
use dex_executorgo.Prelude.Int.{ℤ, pos, negsuc, pos_part, neg_part, ◌+ℤ◌, ◌-ℤ◌}

-- 2^64 and 2^63
abbrev pub two64 : ℕ
two64 = 18446744073709551616

abbrev pub two63 : ℕ
two63 = 9223372036854775808

-- uint64(x) of an int: the bits of the two's complement
unfoldable pub to_uint64 : ℤ → ℕ
to_uint64 (pos n) = n % two64
to_uint64 (negsuc n) = two64 - 1 - n % two64

-- int64(x) of a uint64
unfoldable pub to_int64 : ℕ → ℤ
to_int64 n = if ltb (n % two64) two63 then pos (n % two64) else negsuc (two64 - 1 - n % two64)

-- x + y and x - y of int64, which wrap around
unfoldable pub add_int64 : ℤ → ℤ → ℤ
add_int64 x y = to_int64 (to_uint64 (x +ℤ y))

unfoldable pub sub_int64 : ℤ → ℤ → ℤ
sub_int64 x y = to_int64 (to_uint64 (x -ℤ y))

-- x * y of int64 for factors that are not negative
unfoldable pub mul_int64 : ℕ → ℕ → ℤ
mul_int64 x y = to_int64 (x * y)

-- (*big.Int).Int64 of a number that is not negative: its low 64 bits as an int64
unfoldable pub big_int64 : ℕ → ℤ
big_int64 n = to_int64 n

-- (*big.Int).Uint64: the low 64 bits of the absolute value. The package leaves the result open
-- where the number is negative or too large; this is what it computes there.
unfoldable pub big_uint64 : ℤ → ℕ
big_uint64 x = (pos_part x + neg_part x) % two64

pub to_int64_small : (n : ℕ) → n < two63 → to_int64 n ≡ pos n
unfolding to_int64
to_int64_small n h = ground arith

pub to_uint64_exact : (n : ℕ) → n < two64 → to_uint64 (pos n) ≡ n
unfolding to_uint64
to_uint64_exact n h = ground arith

-- Where the value fits, the conversions lose nothing.
pub to_int64-to_uint64 :
    (z : ℤ) → pos_part z < two63 → neg_part z ≤ two63 → to_int64 (to_uint64 z) ≡ z
unfolding to_int64 to_uint64
to_int64-to_uint64 (pos n) h k = ground arith
to_int64-to_uint64 (negsuc n) h k = ground arith

-- Products, sums and differences in range are exact.
pub mul_int64_exact : (x y : ℕ) → x * y < two63 → mul_int64 x y ≡ pos (x * y)
unfolding mul_int64
mul_int64_exact x y h = to_int64_small (x * y) h

pub add_int64_exact :
    (x y : ℤ) → pos_part (x +ℤ y) < two63 → neg_part (x +ℤ y) ≤ two63 → add_int64 x y ≡ x +ℤ y
unfolding add_int64
add_int64_exact x y h k = to_int64-to_uint64 (x +ℤ y) h k

pub sub_int64_exact :
    (x y : ℤ) → pos_part (x -ℤ y) < two63 → neg_part (x -ℤ y) ≤ two63 → sub_int64 x y ≡ x -ℤ y
unfolding sub_int64
sub_int64_exact x y h k = to_int64-to_uint64 (x -ℤ y) h k
