-- ===== src/Go/Text.antt =====
-- Go strings as lists of bytes, and the functions of package strings that the program calls.
-- Every separator that the program splits at is one byte. The case mappings are those of ASCII
-- text, which addresses, symbols and file names are.
pub mod Equality
pub mod Split
use Prim.Native.Char.{code}
use dex_executorgo.Prelude.{
  ℕ, zero, suc, ◌+◌, ◌-◌, ◌≡◌, refl, Bool, true, false, ◌&&◌, ◌||◌, Option, none, some, List, [],
  ◌∷◌, ◌++◌, map, String, leb, ◌==◌, if◌then◌else◌, length, take, drop,
}

abbrev pub Text : Type 0
Text = List ℕ

-- A string literal.
abbrev pub lit : String → Text
lit String.[] = []
lit (String.◌∷◌ c s) = code c ∷ lit s

-- s == t
unfoldable pub text_eq : Text → Text → Bool
text_eq [] [] = true
text_eq [] (y ∷ ys) = false
text_eq (x ∷ xs) [] = false
text_eq (x ∷ xs) (y ∷ ys) = x == y && text_eq xs ys

-- strings.HasPrefix
unfoldable pub has_prefix : Text → Text → Bool
has_prefix s [] = true
has_prefix [] (p ∷ ps) = false
has_prefix (x ∷ xs) (p ∷ ps) = x == p && has_prefix xs ps

-- strings.Contains
unfoldable pub contains : Text → Text → Bool
unfolding has_prefix
contains [] sub = has_prefix [] sub
contains (x ∷ xs) sub = has_prefix (x ∷ xs) sub || contains xs sub

pub cons_head : ℕ → List Text → List Text
cons_head x [] = (x ∷ []) ∷ []
cons_head x (p ∷ ps) = (x ∷ p) ∷ ps

-- strings.Split at a separator of one byte
unfoldable pub split : ℕ → Text → List Text
unfolding cons_head
split c [] = [] ∷ []
split c (x ∷ xs) = let rest = split c xs in if x == c then [] ∷ rest else cons_head x rest

-- The replacements that are left: `none` stands for -1, no limit.
abbrev may : Option ℕ → Bool
may none = true
may (some zero) = false
may (some (suc n)) = true

abbrev fewer : Option ℕ → Option ℕ
fewer none = none
fewer (some n) = some (n - 1)

-- The scan of strings.Replace. `skip` counts the bytes of a match that is being passed over.
pub replace_from : Text → Text → Option ℕ → ℕ → Text → Text
unfolding has_prefix
replace_from old new limit skip [] = []
replace_from old new limit (suc skip) (x ∷ xs) = replace_from old new limit skip xs
replace_from old new limit zero (x ∷ xs) =
    let hit = may limit && has_prefix (x ∷ xs) old in
    (if hit then new else x ∷ [])
    ++ replace_from old new (if hit then fewer limit else limit) (if hit then length old - 1 else 0)
        xs

-- strings.Replace, for an `old` that is not empty
unfoldable pub replace : Text → Text → Text → Option ℕ → Text
unfolding replace_from
replace s old new limit = replace_from old new limit 0 s

abbrev lower : ℕ → ℕ
lower c = if leb b'A' c && leb c b'Z' then c + 32 else c

abbrev upper : ℕ → ℕ
upper c = if leb b'a' c && leb c b'z' then c - 32 else c

-- strings.ToLower
unfoldable pub to_lower : Text → Text
to_lower = map lower

-- strings.ToUpper
unfoldable pub to_upper : Text → Text
to_upper = map upper

-- s[lo:hi]; `none` is the panic for bounds out of range
unfoldable pub slice : Text → ℕ → ℕ → Option Text
slice s lo hi = if leb lo hi && leb hi (length s) then some (drop lo (take hi s)) else none

replace_all : replace (lit "aXbXc") (lit "X") (lit "--") none ≡ lit "a--b--c"
unfolding replace
replace_all = refl

replace_one : replace (lit "a/b/c") (lit "/") (lit "_") (some 1) ≡ lit "a_b/c"
unfolding replace
replace_one = refl

split_dots : split b'.' (lit "a.bc..") ≡ lit "a" ∷ lit "bc" ∷ [] ∷ [] ∷ []
unfolding split
split_dots = refl
