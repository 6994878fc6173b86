-- ===== src/Plan/Json.antt =====
-- What `json.load` makes of a text: Python values as one data type.
use kafka_utils.Base.{
  ℕ, ◌^◌, String, List, [], ◌∷◌, Bool, true, false, not, ℤ, pos, eqb_ℤ, Option, none, some,
}

-- A finite float is `mantissa / 2 ^ exponent`.
mutual
  pub data Json : Type 0 where
    null : Json
    bool : Bool → Json
    int : ℤ → Json
    float : (mantissa : ℤ) (exponent : ℕ) → Json
    text : String → Json
    arr : Items → Json
    obj : Fields → Json

  pub data Items : Type 0 where
    nil : Items
    cons : Json → Items → Items

  pub data Fields : Type 0 where
    end : Fields
    field : String → Json → Fields → Fields

abbrev pub items : Items → List Json
items nil = []
items (cons j js) = j ∷ items js

abbrev pub fields : Fields → List (String × Json)
fields end = []
fields (field k j fs) = (k, j) ∷ fields fs

abbrev is_zero : ℤ → Bool
is_zero z = eqb_ℤ z (pos 0)

abbrev is_empty : String → Bool
is_empty String.[] = true
is_empty (String.◌∷◌ c s) = false

-- `bool(value)`
unfoldable pub truthy : Json → Bool
truthy null = false
truthy (bool b) = b
truthy (int z) = not (is_zero z)
truthy (float m e) = not (is_zero m)
truthy (text s) = not (is_empty s)
truthy (arr nil) = false
truthy (arr (cons j js)) = true
truthy (obj end) = false
truthy (obj (field k j fs)) = true

-- `value == 1`: Python compares numbers and Booleans by value.
unfoldable pub equals_one : Json → Bool
equals_one (bool b) = b
equals_one (int z) = eqb_ℤ z (pos 1)
equals_one (float m e) = eqb_ℤ m (pos (2 ^ e))
equals_one _ = false

-- The value of what is an instance of `int`: a Boolean is one.
unfoldable pub int_value : Json → Option ℤ
int_value (bool true) = some (pos 1)
int_value (bool false) = some (pos 0)
int_value (int z) = some z
int_value _ = none
