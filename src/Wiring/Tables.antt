-- ===== src/Wiring/Tables.antt =====
-- The tables of addresses that main builds by ranging over maps: which entry a table gives for an
-- address, whatever the order of the range, and how letter case decides it.
use dex_executorgo.Prelude.{
  ◌≡◌, refl, ap, subst, sym, ◌∙◌, ◌≢◌, Bool, true, false, ◌||◌, Option, none, some, List, [], ◌∷◌,
  arith, if◌then◌else◌, All, Bool-cases, ◌⊎◌, inl, inr,
}
use mathlib.Core.List.{Memᴰ}
use dex_executorgo.Go.Text.{Text, text_eq, to_lower}
use dex_executorgo.Go.Text.Equality.{text_eq_iff}
use dex_executorgo.Go.Dict.{Dict, lookup, insert, lookup-insert}
use dex_executorgo.Wiring.{new_router, enemies_map}

-- The name that the last entry with the address gives, if any has it.
name_at : Text → Dict Text → Option Text → Option Text
name_at a [] old = old
name_at a ((name, b) ∷ rest) old = name_at a rest (if text_eq b a then some name else old)

lookup-new_router :
    (entries table : Dict Text) (a : Text)
    → lookup a (new_router entries table) ≡ name_at a entries (lookup a table)
unfolding new_router name_at
lookup-new_router [] table a = refl
lookup-new_router ((name, b) ∷ rest) table a =
    lookup-new_router rest (insert b name table) a
    ∙ ap (name_at a rest) (lookup-insert b a name table)

-- Some configured router has the address, as it is spelled.
abbrev pub has_address : Text → Dict Text → Bool
has_address a [] = false
has_address a ((name, b) ∷ rest) = text_eq b a || has_address a rest

name_at-some :
    (a name : Text) (entries : Dict Text)
    → (last : Text) × (name_at a entries (some name) ≡ some last)
unfolding name_at
name_at-some a name [] = (name, refl)
name_at-some a name ((n, b) ∷ rest) = elim (Bool-cases (text_eq b a)) [
  | inl e ↦ rw (e, name_at) (name_at-some a n rest)
  | inr e ↦ rw (e, name_at) (name_at-some a name rest)
]

name_at-has_address :
    (a : Text) (entries : Dict Text) (old : Option Text)
    → has_address a entries ≡ true
    → (last : Text) × (name_at a entries old ≡ some last)
unfolding name_at
name_at-has_address a [] old h = cc
name_at-has_address a ((n, b) ∷ rest) old h = elim (Bool-cases (text_eq b a)) [
  | inl e ↦ rw (e, name_at) (name_at-some a n rest)
  | inr e ↦ rw (e, name_at) (name_at-has_address a rest old (ground arith))
]

name_at-no_address :
    (a : Text) (entries : Dict Text) (old : Option Text)
    → has_address a entries ≡ false
    → name_at a entries old ≡ old
unfolding name_at
name_at-no_address a [] old h = refl
name_at-no_address a ((n, b) ∷ rest) old h = ground (arith, name_at-no_address a rest old)

-- The table of routers has exactly the addresses of the configured ones.
pub new_router-has_address :
    (entries : Dict Text) (a : Text)
    → ((has_address a entries ≡ true)
        × ((name : Text) × (lookup a (new_router entries []) ≡ some name)))
      ⊎ ((has_address a entries ≡ false) × (lookup a (new_router entries []) ≡ none))
new_router-has_address entries a = elim (Bool-cases (has_address a entries)) [
  | inl e ↦
      let (name, found) = name_at-has_address a entries (lookup a []) e in
      inl (e, (name, lookup-new_router entries [] a ∙ found))
  | inr e ↦ inr (
    e,
    lookup-new_router entries [] a
        ∙ name_at-no_address a entries (lookup a []) e
        ∙ unfold lookup in refl,
  )
]

-- No address of the rest is the one given.
abbrev pub IsNew : Text → Dict Text → Type 0
IsNew a = All (λ e. e.1 ≢ a)

-- The configured routers have different addresses.
abbrev pub IsDistinct : Dict Text → Type 0
IsDistinct [] = Unit
IsDistinct ((_, a) ∷ rest) = IsNew a rest × IsDistinct rest

name_at-IsNew :
    (a : Text) (entries : Dict Text) (old : Option Text)
    → IsNew a entries
    → name_at a entries old ≡ old
unfolding name_at
name_at-IsNew a [] old new = refl
name_at-IsNew a ((name, b) ∷ rest) old new =
    ground (arith, text_eq_iff b a, name_at-IsNew a rest old new.1)

name_at-Memᴰ :
    (a name : Text) (entries : Dict Text) (old : Option Text)
    → IsDistinct entries
    → Memᴰ (name, a) entries
    → name_at a entries old ≡ some name
unfolding name_at
name_at-Memᴰ a name [] old distinct held = elim held [ ]
name_at-Memᴰ a name ((n, b) ∷ rest) old distinct (Memᴰ.head p) = ground (
  arith,
  text_eq_iff b a,
  sym (ap (λ e. e.0) p),
  sym (ap (λ e. e.1) p),
  name_at-IsNew a rest (some name) (subst (λ c. IsNew c rest) (sym (ap (λ e. e.1) p)) distinct.0),
)
name_at-Memᴰ a name ((n, b) ∷ rest) old distinct (Memᴰ.tail held) =
    name_at-Memᴰ a name rest (if text_eq b a then some n else old) distinct.1 held

-- Routers with different addresses are all found, each under its address and with its name,
-- whatever the order in which main meets them.
pub lookup-new_router_mem :
    (entries : Dict Text) (name a : Text)
    → IsDistinct entries
    → Memᴰ (name, a) entries
    → lookup a (new_router entries []) ≡ some name
lookup-new_router_mem entries name a distinct held =
    lookup-new_router entries [] a ∙ name_at-Memᴰ a name entries _ distinct held

-- If no router of the configuration has its address in lower case, the table has no entry for any
-- address in lower case, which is the form that a pending transaction's `to` has.
pub new_router-to_lower :
    (entries : Dict Text) (to : Text)
    → All (λ e. to_lower e.1 ≢ e.1) entries
    → to_lower to ≡ to
    → lookup to (new_router entries []) ≡ none
unfolding lookup
new_router-to_lower entries to mixed low =
    lookup-new_router entries [] to ∙ name_at-IsNew to entries none (apart entries mixed)
  where
    apart : (es : Dict Text) → All (λ e. to_lower e.1 ≢ e.1) es → IsNew to es
    apart [] m = tt
    apart (e ∷ es) m = (λ same. m.0 (ap to_lower same ∙ low ∙ sym same), apart es m.1)

-- Some configured address is the one given, letter case aside.
abbrev pub is_enemy : Text → List Text → Bool
is_enemy to [] = false
is_enemy to (addr ∷ rest) = text_eq (to_lower addr) to || is_enemy to rest

-- The table of enemies ignores the case of the configured addresses: it has an address exactly
-- if the lower-case form of some configured address is that address.
pub lookup-enemies_map :
    (enemies : List Text) (table : Dict Bool) (to : Text)
    → lookup to (enemies_map enemies table)
      ≡ (if is_enemy to enemies then some true else lookup to table)
unfolding enemies_map
lookup-enemies_map [] table to = refl
lookup-enemies_map (addr ∷ rest) table to = ground (
  arith,
  lookup-enemies_map rest (insert (to_lower addr) true table) to,
  lookup-insert (to_lower addr) to true table,
)
