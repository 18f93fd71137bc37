-- ===== src/Models/Json.antt =====
-- JSON values, and what the program asks of them: an index by a key, a text, a list of texts.
use hush_net_backend.Prelude.{
  ℕ, String, Bool, Option, none, some, List, [], ◌∷◌, str_eq, if◌then◌else◌, ◌≡◌, refl, ap,
}
use mathlib.Core.Option

mutual
  pub data Value : Type 0 where
    null : Value
    boolean : Bool → Value
    number : ℕ → Value
    string : String → Value
    array : Items → Value
    object : Fields → Value

  pub data Items : Type 0 where
    nil : Items
    item : Value → Items → Items

  pub data Fields : Type 0 where
    end : Fields
    field : String → Value → Fields → Fields

-- value.as_str()
abbrev pub as_str : Value → Option String
as_str (string s) = some s
as_str null = none
as_str (boolean _) = none
as_str (number _) = none
as_str (array _) = none
as_str (object _) = none

abbrev get_field : String → Fields → Option Value
get_field key end = none
get_field key (field k v rest) = if str_eq k key then some v else get_field key rest

-- value.get(key)
abbrev pub get : Value → String → Option Value
get (object fields) key = get_field key fields
get null _ = none
get (boolean _) _ = none
get (number _) _ = none
get (string _) _ = none
get (array _) _ = none

-- value.get(key).and_then(|v| v.as_str()), which is also value[key].as_str()
abbrev pub get_str : Value → String → Option String
get_str value key = elim (get value key) [ none ↦ none | some v ↦ as_str v ]

abbrev strings_of : Items → Option (List String)
strings_of nil = some []
strings_of (item v rest) = elim (as_str v) [
  | none ↦ none
  | some s ↦ Option.map (λ ss. s ∷ ss) (strings_of rest)
]

-- from_value::<Vec<String>>
abbrev pub to_strings : Value → Option (List String)
to_strings (array items) = strings_of items
to_strings null = none
to_strings (boolean _) = none
to_strings (number _) = none
to_strings (string _) = none
to_strings (object _) = none

abbrev items_of : List String → Items
items_of [] = nil
items_of (s ∷ ss) = item (string s) (items_of ss)

-- json! of a vector of texts
abbrev pub json_strings : List String → Value
json_strings ss = array (items_of ss)

pub to_strings-json_strings : (ss : List String) → to_strings (json_strings ss) ≡ some ss
to_strings-json_strings [] = refl
to_strings-json_strings (s ∷ ss) =
    ap (Option.map (λ (xs : List String). s ∷ xs)) (to_strings-json_strings ss)
