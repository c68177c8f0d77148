-- ===== src/Tests/Sample.antt =====
-- A concrete platform, and small graphs and stores on it, for the tests.
use fancy_flow_rs.Prelude.{
  ℕ, ◌+◌, List, [], ◌∷◌, String, Bool, true, false, Option, some, none, if◌then◌else◌, ◌==◌, ◌≡◌,
  refl, ap, arith, eq_iff, ◌<>◌, ℤ, pos, negsuc, nat_beq, leb, decimal,
}
use fancy_flow_rs.Prelude.Scan.{parse_usize}
use fancy_flow_rs.Platform.{
  Platform, View, Number, pos_int, neg_int, float, null, bool, number, string, array, object,
  view_text, view_list, view_map, view_null,
}
use fancy_flow_rs.Schema.{FlowNode, FlowEdge, FlowGraph}
use fancy_flow_rs.Runtime.Options.{default_options}
use fancy_flow_rs.Executors.{host, ExecutorRegistry, ExecutionContext, value, Reply}
use fancy_flow_rs.Engine.Walk.{Setup}
use fancy_flow_rs.Registry.Catalogue.{empty_registry}

mutual
  pub data Json : Type 0 where
    nothing : Json
    flag : Bool → Json
    num : Number ℕ → Json
    text : String → Json
    list : Items → Json
    table : Fields → Json

  pub data Items : Type 0 where
    last : Items
    item : Json → Items → Items

  pub data Fields : Type 0 where
    end : Fields
    field : String → Json → Fields → Fields

unfoldable pub to_items : List Json → Items
to_items [] = last
to_items (v ∷ l) = item v (to_items l)

unfoldable pub of_items : Items → List Json
of_items last = []
of_items (item v items) = v ∷ of_items items

pub of_items-to_items : (l : List Json) → of_items (to_items l) ≡ l
unfolding of_items to_items
of_items-to_items [] = refl
of_items-to_items (v ∷ l) = rw (of_items-to_items l)

unfoldable pub get_field : Fields → String → Option Json
get_field end key = none
get_field (field k v fields) key =
    let rest = get_field fields key in if k == key then some v else rest

-- A write replaces the field with the key, or adds one at the end.
unfoldable pub insert_field : Fields → String → Json → Fields
insert_field end key v = field key v end
insert_field (field k w fields) key v =
    let rest = insert_field fields key v in if k == key then field key v fields else field k w rest

unfoldable pub field_list : Fields → List (String × Json)
field_list end = []
field_list (field k v fields) = (k, v) ∷ field_list fields

pub get_field-end : (key : String) → get_field end key ≡ none
unfolding get_field
get_field-end key = refl

pub get_field-insert_field :
    (m : Fields) (k : String) (v : Json) (j : String)
    → get_field (insert_field m k v) j ≡ (if k == j then some v else get_field m j)
unfolding get_field insert_field
get_field-insert_field end k v j = refl
get_field-insert_field (field k' w m) k v j =
    ground (arith, get_field-insert_field m k v j, eq_iff k' k, eq_iff k j, eq_iff k' j)

-- The document that the sample pause prints, and its text. A text prints with a quote before it, and
-- the rest is not printed.
abbrev document : Fields
document = field "nodeId" (text "a") (field "awaiting" (text "input") end)

abbrev print : Json → String
print (text s) = "'" <> s
print (table fields) = "{nodeId:a,awaiting:input}"
print _ = "?"

abbrev read : String → Option Json
read s = if s == "{nodeId:a,awaiting:input}" then some (table document) else some (text s)

-- The floats are numbers, all finite.
abbrev see : Json → View Json Fields ℕ
see nothing = null
see (flag b) = bool b
see (num n) = number n
see (text s) = string s
see (list items) = array (of_items items)
see (table fields) = object fields

abbrev from_int : ℤ → Json
from_int (pos n) = num (pos_int n)
from_int (negsuc n) = num (neg_int (negsuc n))

abbrev int_of : Json → Option ℤ
int_of (num (pos_int n)) = some (pos n)
int_of (num (neg_int z)) = some z
int_of _ = none

abbrev float_of : Json → Option ℕ
float_of (num (float x)) = some x
float_of (num (pos_int n)) = some n
float_of _ = none

pub int_of-from_int : (z : ℤ) → int_of (from_int z) ≡ some z
int_of-from_int (pos n) = refl
int_of-from_int (negsuc n) = refl

abbrev no_fields : Fields → Bool
no_fields end = true
no_fields (field k v fields) = false

pub eq-end : (m : Fields) → no_fields m ≡ true → m ≡ end
eq-end end h = refl
eq-end (field k v fields) h = cc

abbrev text_of : Json → Option String
text_of (text s) = some s
text_of _ = none

abbrev list_of : Json → Option (List Json)
list_of (list items) = some (of_items items)
list_of _ = none

abbrev table_of : Json → Option Fields
table_of (table fields) = some fields
table_of _ = none

abbrev field_of : Json → String → Option Json
field_of (table fields) key = get_field fields key
field_of _ key = none

abbrev says_null : Json → Bool
says_null nothing = true
says_null _ = false

abbrev says_false : Json → Bool
says_false (flag false) = true
says_false _ = false

pub text_of-see : (v : Json) → text_of v ≡ view_text (see v)
text_of-see nothing = refl
text_of-see (flag b) = refl
text_of-see (num n) = refl
text_of-see (text s) = refl
text_of-see (list items) = refl
text_of-see (table fields) = refl

pub list_of-see : (v : Json) → list_of v ≡ view_list (see v)
list_of-see nothing = refl
list_of-see (flag b) = refl
list_of-see (num n) = refl
list_of-see (text s) = refl
list_of-see (list items) = refl
list_of-see (table fields) = refl

pub table_of-see : (v : Json) → table_of v ≡ view_map (see v)
table_of-see nothing = refl
table_of-see (flag b) = refl
table_of-see (num n) = refl
table_of-see (text s) = refl
table_of-see (list items) = refl
table_of-see (table fields) = refl

pub says_null-see : (v : Json) → says_null v ≡ view_null (see v)
says_null-see nothing = refl
says_null-see (flag b) = refl
says_null-see (num n) = refl
says_null-see (text s) = refl
says_null-see (list items) = refl
says_null-see (table fields) = refl

-- The handles are numbers, and the host's state counts the calls.
instance abbrev pub sample : Platform
sample = record {
  Value = Json;
  Map = Fields;
  Float = ℕ;
  zero_float = 0;
  is_finite = λ x. true;
  is_zero = λ x. nat_beq x 0;
  le_float = leb;
  float_of = λ n. n;
  parse_float = parse_usize;
  display_float = decimal;
  null = nothing;
  bool = flag;
  number = num;
  view = see;
  from_i64 = from_int;
  from_u64 = λ n. num (pos_int n);
  from_f64 = λ x. num (float x);
  as_i64 = int_of;
  as_f64 = float_of;
  is_empty = no_fields;
  is_null = says_null;
  string = text;
  array = λ l. list (to_items l);
  object = table;
  as_str = text_of;
  as_array = list_of;
  as_object = table_of;
  is_false = says_false;
  empty = end;
  get = get_field;
  insert = insert_field;
  get_in = field_of;
  entries = field_list;
  to_string = print;
  parse = read;
  as_str-string = λ s. refl;
  as_array-array = λ l. ap some (of_items-to_items l);
  as_object-object = λ m. refl;
  as_object-array = λ l. refl;
  as_array-object = λ m. refl;
  as_object-string = λ s. refl;
  as_str-array = λ l. refl;
  as_str-object = λ m. refl;
  get-empty = get_field-end;
  get-insert = get_field-insert_field;
  view-null = refl;
  view-bool = λ b. refl;
  view-number = λ n. refl;
  view-string = λ s. refl;
  view-array = λ l. ap array (of_items-to_items l);
  view-object = λ m. refl;
  as_str-view = text_of-see;
  as_array-view = list_of-see;
  as_object-view = table_of-see;
  is_null-view = says_null-see;
  as_i64-from_i64 = int_of-from_int;
  as_f64-from_f64 = λ x h. refl;
  get_in-object = λ m k. refl;
  is_empty-empty = refl;
  eq-empty = eq-end;
  Handle = ℕ;
  World = ℕ;
}

abbrev pub node : String → FlowNode
node id = record {
  id = id;
  kind = some "task";
  x = 0;
  y = 0;
  label = none;
  description = none;
  config = end;
  inputs = none;
  outputs = none;
}

abbrev pub edge : String → String → FlowEdge
edge source target = record {
  id = source <> target;
  source = source;
  target = target;
  source_handle = none;
  target_handle = none;
  label = none;
}

-- `a` to `b`
abbrev pub line : FlowGraph
line = record { nodes = node "a" ∷ node "b" ∷ []; edges = edge "a" "b" ∷ [] }

abbrev pub bound : ExecutorRegistry
bound = record { by_kind = ("task", host 0) ∷ []; by_node = []; kinds = none }

-- Each call counts itself and answers with a text.
abbrev pub answer : ℕ → ExecutionContext → ℕ → Reply
answer h ctx w = record { world = w + 1; emitted = []; outcome = value (text "done") }

abbrev pub setup : Setup
setup = record {
  graph = line;
  executors = bound;
  kinds = none;
  options = default_options;
  kind_lookup = record { runner = none; executors = none; builtin = empty_registry };
}
