-- ===== src/Platform.antt =====
-- What the crate takes from outside: the JSON values of the package `fancy_json`, the `f64` type, the
-- host's executors as opaque handles, and the state that the host's code keeps between calls.
use fancy_flow_rs.Prelude.{
  ℕ, ℤ, List, String, Bool, true, false, Option, some, none, ◌≡◌, if◌then◌else◌, ◌==◌,
}

-- `fancy_json::Number`
pub data Number (F : Type 0) : Type 0 where
  pos_int : ℕ → Number F
  neg_int : ℤ → Number F
  float : F → Number F

-- What a `match` on a `fancy_json::Value` sees. `V`, `M` and `F` are the values, the maps and `f64`.
pub data View (V M F : Type 0) : Type 0 where
  null : View V M F
  bool : Bool → View V M F
  number : Number F → View V M F
  string : String → View V M F
  array : List V → View V M F
  object : M → View V M F

module _ {V M F : Type 0} where
  abbrev pub view_text : View V M F → Option String
  view_text (string s) = some s
  view_text _ = none

  abbrev pub view_list : View V M F → Option (List V)
  view_list (array l) = some l
  view_list _ = none

  abbrev pub view_map : View V M F → Option M
  view_map (object m) = some m
  view_map _ = none

  abbrev pub view_null : View V M F → Bool
  view_null null = true
  view_null _ = false

  abbrev pub view_flag : View V M F → Option Bool
  view_flag (bool b) = some b
  view_flag _ = none

pub record Platform : Type 1 where
  -- `fancy_json::Value` and `fancy_json::Map`
  pub Value : Type 0
  pub Map : Type 0
  -- `f64`, with `is_finite`, `== 0.0`, `<=`, `f64::from` of a `u32`, `str::parse` and `Display`
  pub Float : Type 0
  pub zero_float : Float
  pub is_finite : Float → Bool
  pub is_zero : Float → Bool
  pub le_float : Float → Float → Bool
  pub float_of : ℕ → Float
  pub parse_float : String → Option Float
  pub display_float : Float → String
  pub null : Value
  pub bool : Bool → Value
  pub number : Number Float → Value
  pub is_null : Value → Bool
  pub string : String → Value
  pub array : List Value → Value
  pub object : Map → Value
  pub view : Value → View Value Map Float
  pub as_str : Value → Option String
  pub as_array : Value → Option (List Value)
  pub as_object : Value → Option Map
  -- `value == &Value::Bool(false)`
  pub is_false : Value → Bool
  -- `Value::from` of an `i64`, of a `u64` and of an `f64`, and the accessors of numbers
  pub from_i64 : ℤ → Value
  pub from_u64 : ℕ → Value
  pub from_f64 : Float → Value
  pub as_i64 : Value → Option ℤ
  pub as_f64 : Value → Option Float
  pub empty : Map
  pub is_empty : Map → Bool
  pub get : Map → String → Option Value
  pub insert : Map → String → Value → Map
  -- `Value::get`
  pub get_in : Value → String → Option Value
  -- `Map::iter`, in the map's own order
  pub entries : Map → List (String × Value)
  -- `fancy_json::to_string` and `fancy_json::parse`
  pub to_string : Value → String
  pub parse : String → Option Value
  -- Each accessor reads back what its constructor holds, and nothing else.
  pub as_str-string : (s : String) → as_str (string s) ≡ some s
  pub as_array-array : (l : List Value) → as_array (array l) ≡ some l
  pub as_object-object : (m : Map) → as_object (object m) ≡ some m
  pub as_object-array : (l : List Value) → as_object (array l) ≡ none
  pub as_array-object : (m : Map) → as_array (object m) ≡ none
  pub as_object-string : (s : String) → as_object (string s) ≡ none
  pub as_str-array : (l : List Value) → as_str (array l) ≡ none
  pub as_str-object : (m : Map) → as_str (object m) ≡ none
  -- A `match` sees what the constructor holds, and the accessors are matches.
  pub view-null : view null ≡ View.null
  pub view-bool : (b : Bool) → view (bool b) ≡ View.bool b
  pub view-number : (n : Number Float) → view (number n) ≡ View.number n
  pub view-string : (s : String) → view (string s) ≡ View.string s
  pub view-array : (l : List Value) → view (array l) ≡ View.array l
  pub view-object : (m : Map) → view (object m) ≡ View.object m
  pub as_str-view : (v : Value) → as_str v ≡ view_text (view v)
  pub as_array-view : (v : Value) → as_array v ≡ view_list (view v)
  pub as_object-view : (v : Value) → as_object v ≡ view_map (view v)
  pub is_null-view : (v : Value) → is_null v ≡ view_null (view v)
  pub as_i64-from_i64 : (z : ℤ) → as_i64 (from_i64 z) ≡ some z
  pub as_f64-from_f64 : (x : Float) → is_finite x ≡ true → as_f64 (from_f64 x) ≡ some x
  -- A map answers a key by the last value inserted under it.
  pub get-empty : (k : String) → get empty k ≡ none
  pub get-insert :
      (m : Map) (k : String) (v : Value) (j : String)
      → get (insert m k v) j ≡ (if k == j then some v else get m j)
  pub get_in-object : (m : Map) (k : String) → get_in (object m) k ≡ get m k
  pub is_empty-empty : is_empty empty ≡ true
  pub eq-empty : (m : Map) → is_empty m ≡ true → m ≡ empty
  -- `Rc<dyn Executor>` bound by a host, and all state that the host's code reads and writes
  pub Handle : Type 0
  pub World : Type 0
