-- ===== src/Go/Json.antt =====
-- encoding/json: what it puts into an interface{}, and how it fills a struct from an object. A key
-- fits a field's tag up to letter case. No two tags of a struct and no two keys of an object are the
-- same up to case.
use dex_executorgo.Prelude.{
  Bool, true, false, ◌&&◌, Option, none, some, List, [], ◌∷◌, if◌then◌else◌,
}
use dex_executorgo.Go.Text.{Text, text_eq, to_lower}
use dex_executorgo.Go.Float.{Float64}

mutual
  pub data Json : Type 0 where
    null : Json
    bool : Bool → Json
    number : Float64 → Json
    string : Text → Json
    array : Items → Json
    object : Fields → Json

  pub data Items : Type 0 where
    nil : Items
    cons : Json → Items → Items

  pub data Fields : Type 0 where
    end : Fields
    field : Text → Json → Fields → Fields

abbrev pub items_of : List Json → Items
items_of [] = nil
items_of (j ∷ js) = cons j (items_of js)

abbrev pub list_of : Items → List Json
list_of nil = []
list_of (cons j js) = j ∷ list_of js

-- A value, and whether all that was read so far had the right type. After a wrong type the decoding
-- goes on, and Unmarshal returns the error at its end.
abbrev pub Read {ℓ} : Type ℓ → Type ℓ
Read S = S × Bool

-- A key fits a tag.
unfoldable pub fits : Text → Text → Bool
unfolding text_eq to_lower
fits key tag = text_eq (to_lower key) (to_lower tag)

module _ {ℓ} {S : Type ℓ} where
  -- A string field: null leaves it as it is.
  abbrev pub text_field : (Text → S → S) → Json → S → Read S
  text_field put (string t) s = (put t s, true)
  text_field put null s = (s, true)
  text_field put (bool b) s = (s, false)
  text_field put (number x) s = (s, false)
  text_field put (array js) s = (s, false)
  text_field put (object fs) s = (s, false)

  -- An interface{} field takes any value.
  abbrev pub any_field : (Json → S → S) → Json → S → Read S
  any_field put j s = (put j s, true)

  -- A []interface{} field: null makes it nil.
  abbrev pub list_field : (List Json → S → S) → Json → S → Read S
  list_field put (array js) s = (put (list_of js) s, true)
  list_field put null s = (put [] s, true)
  list_field put (bool b) s = (s, false)
  list_field put (number x) s = (s, false)
  list_field put (string t) s = (s, false)
  list_field put (object fs) s = (s, false)

  -- The field that a key fits; a key that fits none is passed over.
  unfoldable pub assign : List (Text × (Json → S → Read S)) → Text → Json → S → Read S
  unfolding fits
  assign [] key j s = (s, true)
  assign ((tag, put) ∷ rest) key j s = if fits key tag then put j s else assign rest key j s

  unfoldable pub unmarshal_fields : List (Text × (Json → S → Read S)) → Fields → S → Read S
  unfolding assign
  unmarshal_fields tags end s = (s, true)
  unmarshal_fields tags (field key j rest) s =
      let (s', good) = assign tags key j s in
      let (last, more) = unmarshal_fields tags rest s' in (last, good && more)

  -- json.Unmarshal into a variable of a struct type; `none` is an error.
  unfoldable pub unmarshal : List (Text × (Json → S → Read S)) → S → Json → Option S
  unfolding unmarshal_fields
  unmarshal tags s (object fs) =
      let (last, good) = unmarshal_fields tags fs s in if good then some last else none
  unmarshal tags s null = some s
  unmarshal tags s (bool b) = none
  unmarshal tags s (number x) = none
  unmarshal tags s (string t) = none
  unmarshal tags s (array js) = none
