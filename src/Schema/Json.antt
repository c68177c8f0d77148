-- ===== src/Schema/Json.antt =====
-- schema/mod.rs: the reading and writing of JSON fields.
use fancy_flow_rs.Prelude.{
  ℤ, List, [], ◌∷◌, map, String, Option, some, none, if◌then◌else◌, ◌==◌, ◌≡◌, refl, ap, arith,
}
use fancy_flow_rs.Platform.{Platform}

module _ ⦃P : Platform⦄ where
  open P use {
    Value, Map, string, array, object, as_str, as_array, as_object, from_i64, as_i64, empty, insert,
    get, get_in,
  }

  abbrev pub str_of : Option Value → Option String
  str_of (some v) = as_str v
  str_of none = none

  abbrev pub list_of : Option Value → Option (List Value)
  list_of (some v) = as_array v
  list_of none = none

  abbrev pub int_of : Option Value → Option ℤ
  int_of (some v) = as_i64 v
  int_of none = none

  abbrev pub map_of : Option Value → Option Map
  map_of (some v) = as_object v
  map_of none = none

  abbrev pub map_or_empty : Option Map → Map
  map_or_empty (some m) = m
  map_or_empty none = empty

  unfoldable pub string_at : Value → String → Option String
  string_at raw key = str_of (get_in raw key)

  -- The insertion of a field that may be absent.
  abbrev pub put : Map → String → Option Value → Map
  put m key (some v) = insert m key v
  put m key none = m

  abbrev pub text_value : Option String → Option Value
  text_value (some s) = some (string s)
  text_value none = none

  abbrev pub int_value : Option ℤ → Option Value
  int_value (some z) = some (from_i64 z)
  int_value none = none

  -- The strings of a list; what is no string is left out.
  abbrev pub strings : List Value → List String
  strings [] = []
  strings (v ∷ l) = let rest = strings l in elim (as_str v) [ some s ↦ s ∷ rest | none ↦ rest ]

  abbrev pub strings_of : Option (List Value) → Option (List String)
  strings_of (some l) = some (strings l)
  strings_of none = none

  abbrev pub array_of : Option (List String) → Option Value
  array_of (some tags) = some (array (map string tags))
  array_of none = none

  abbrev pub first : Option Value → Option Value → Option Value
  first (some v) w = some v
  first none w = w

  pub str_of-text_value : (o : Option String) → str_of (first (text_value o) none) ≡ o
  str_of-text_value none = refl
  str_of-text_value (some s) = P.as_str-string s

  pub int_of-int_value : (o : Option ℤ) → int_of (first (int_value o) none) ≡ o
  int_of-int_value none = refl
  int_of-int_value (some z) = P.as_i64-from_i64 z

  pub strings-map : (l : List String) → strings (map string l) ≡ l
  strings-map [] = refl
  strings-map (s ∷ l) = rw (P.as_str-string s) (ap (◌∷◌ s) (strings-map l))

  pub strings_of-array_of :
      (o : Option (List String)) → strings_of (list_of (first (array_of o) none)) ≡ o
  strings_of-array_of none = refl
  strings_of-array_of (some l) = rw (P.as_array-array (map string l)) (ap some (strings-map l))

  -- A field put into a map is read back; the other fields are as they were.
  pub get-put :
      (m : Map) (k : String) (v : Option Value) (j : String)
      → get (put m k v) j ≡ (if k == j then first v (get m j) else get m j)
  get-put m k none j = ground arith
  get-put m k (some v) j = P.get-insert m k v j
