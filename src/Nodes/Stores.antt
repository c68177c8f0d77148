-- ===== src/Nodes/Stores.antt =====
-- nodes/data.rs and nodes/support/clients.rs: the nodes that read and write a keyed store.
pub mod Memory
pub mod Written
use fancy_flow_rs.Prelude.{
  ℕ, List, [], ◌∷◌, ◌++◌, String, Bool, true, false, Option, some, none, if◌then◌else◌, ◌==◌, ◌<>◌,
  ◌≡◌, refl, all, strip_prefix,
}
use fancy_flow_rs.Schema.Json.{map_of, map_or_empty}
use fancy_flow_rs.Platform.{Platform}
use fancy_flow_rs.Schema.{or_text}
use fancy_flow_rs.Executors.{ExecutionContext}
use fancy_flow_rs.Executors.Context.{Ran, value_or, option, option_str}
use fancy_flow_rs.Nodes.Expr.{evaluate_in, text}
use fancy_flow_rs.Nodes.Shaping.{gives}
use fancy_flow_rs.Nodes.Stores.Memory

module _ ⦃P : Platform⦄ where
  open P use {
    Value, Map, null, string, array, object, as_object, as_array, empty, is_empty, insert, entries,
  }

  -- The trait `KeyValueStore`; `all` lists the entries in the order of their keys.
  pub record KeyValueStore : Type 1 where
    pub Store : Type 0
    pub get : Store → String → Option Value
    pub set : Store → String → Value → Store
    pub delete : Store → String → Store
    pub all : Store → List (String × Value)
    pub get-set :
        (s : Store) (k : String) (v : Value) (j : String)
        → get (set s k v) j ≡ (if k == j then some v else get s j)
    pub get-delete :
        (s : Store) (k j : String) → get (delete s k) j ≡ (if k == j then none else get s j)

  abbrev pub memory : KeyValueStore
  memory = record {
    Store = List (String × Value);
    get = Memory.get;
    set = Memory.set;
    delete = Memory.delete;
    all = λ entries. entries;
    get-set = Memory.get-set;
    get-delete = Memory.get-delete;
  }

  abbrev pub listed : Option (List Value) → Value → List Value
  listed (some items) existing = items
  listed none existing = existing ∷ []

  -- What an append finds: no list where the key is absent, and a value that is no list as the first.
  unfoldable pub items_before : Option Value → List Value
  items_before none = []
  items_before (some existing) = listed (as_array existing) existing

  abbrev pub payload : ExecutionContext → Value
  unfolding evaluate_in option
  payload ctx = evaluate_in (option ctx "value") ctx.inputs

  unfoldable pub memory_store : (K : KeyValueStore) → ExecutionContext → K.Store → Ran × K.Store
  unfolding option_str payload items_before
  memory_store K ctx s =
      let operation = option_str ctx "operation" "read" in
      let key = option_str ctx "key" "" in
      let appended = array (items_before (K.get s key) ++ payload ctx ∷ []) in
      if operation == "write"
      then (gives (payload ctx), K.set s key (payload ctx))
      else if operation == "append"
      then (gives appended, K.set s key appended)
      else (gives (value_or (K.get s key) null), s)

  unfoldable pub namespaced : String → String → String
  namespaced table key = table <> "/" <> key

  unfoldable pub rows_of : String → Map → List (String × Value) → Map
  unfolding strip_prefix
  rows_of table out [] = out
  rows_of table out ((key, v) ∷ entries) =
      rows_of table
        (elim (strip_prefix key (table <> "/")) [
          | some stripped ↦ insert out stripped v
          | none ↦ out
        ])
        entries

  unfoldable pub rows : (K : KeyValueStore) → K.Store → String → Map
  unfolding rows_of
  rows K s table = rows_of table empty (K.all s)

  abbrev field_is : (Value → Value → Bool) → Option Value → Value → Bool
  field_is same (some v) expected = same v expected
  field_is same none expected = false

  abbrev fields_match : (Value → Value → Bool) → Option Map → Map → Bool
  fields_match same none filter = false
  fields_match same (some row) filter =
      all (λ (e : String × Value). field_is same (P.get row e.0) e.1) (entries filter)

  -- `same` is the equality of values.
  unfoldable pub matches_filter : (Value → Value → Bool) → Value → Map → Bool
  matches_filter same row filter =
      if is_empty filter then true else fields_match same (as_object row) filter

  unfoldable pub matched : (Value → Value → Bool) → Map → List (String × Value) → List Value
  unfolding matches_filter
  matched same filter [] = []
  matched same filter ((key, row) ∷ l) =
      let rest = matched same filter l in
      if matches_filter same row filter then row ∷ rest else rest

  -- The key in the store of the row that a node names.
  unfoldable pub row_key : ExecutionContext → String
  unfolding namespaced option_str text option
  row_key ctx = namespaced (option_str ctx "table" "default") (text (option ctx "key"))

  unfoldable pub data_store :
      (Value → Value → Bool) → (K : KeyValueStore) → ExecutionContext → K.Store → Ran × K.Store
  unfolding option_str option text row_key payload rows matched
  data_store same K ctx s =
      let operation = option_str ctx "operation" "get" in
      let table_rows = rows K s (option_str ctx "table" "default") in
      if operation == "set"
      then (gives (payload ctx), K.set s (row_key ctx) (payload ctx))
      else if operation == "delete"
      then (
        gives (object (insert empty "deleted" (string (text (option ctx "key"))))),
        K.delete s (row_key ctx),
      )
      else if operation == "list"
      then (gives (object table_rows), s)
      else if operation == "query"
      then (
        gives (
            array (matched same (map_or_empty (map_of (option ctx "where"))) (entries table_rows))),
        s,
      )
      else (gives (value_or (K.get s (row_key ctx)) null), s)
