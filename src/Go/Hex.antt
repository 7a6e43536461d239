-- ===== src/Go/Hex.antt =====
-- hex.DecodeString. It returns what it decoded before an error, too, which the program uses.
use dex_executorgo.Prelude.{
  ℕ, ◌+◌, ◌-◌, ◌*◌, ◌≡◌, refl, Bool, true, false, ◌&&◌, Option, none, some, List, [], ◌∷◌, leb,
  if◌then◌else◌,
}
use dex_executorgo.Go.Text.{Text, lit}

-- The value of a hexadecimal digit.
hex_digit : ℕ → Option ℕ
hex_digit c =
    if leb b'0' c && leb c b'9'
    then some (c - b'0')
    else if leb b'a' c && leb c b'f'
    then some (c - b'a' + 10)
    else if leb b'A' c && leb c b'F'
    then some (c - b'A' + 10)
    else none

-- The bytes that were decoded, and whether there was an error.
pub record Decoded : Type 0 where
  pub bytes : List ℕ
  pub failed : Bool

-- One pair of digits, in front of what the rest decodes to.
abbrev hex_pair : Option ℕ → Option ℕ → Decoded → Decoded
hex_pair (some hi) (some lo) rest = record rest { bytes = (hi * 16 + lo) ∷ rest.bytes }
hex_pair _ _ rest = record { bytes = []; failed = true }

unfoldable pub decode_string : Text → Decoded
unfolding hex_digit
decode_string [] = record { bytes = []; failed = false }
decode_string (p ∷ []) = record { bytes = []; failed = true }
decode_string (p ∷ q ∷ s) = hex_pair (hex_digit p) (hex_digit q) (decode_string s)

decode_mixed : (decode_string (lit "0xff")).bytes ≡ []
unfolding decode_string
decode_mixed = refl

decode_pair : decode_string (lit "fF0") ≡ record { bytes = 255 ∷ []; failed = true }
unfolding decode_string
decode_pair = refl
