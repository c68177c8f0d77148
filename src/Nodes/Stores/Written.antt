-- ===== src/Nodes/Stores/Written.antt =====
-- What the nodes that write a keyed store leave for the nodes that read it.
use fancy_flow_rs.Prelude.{
  List, [], ◌∷◌, ◌++◌, String, Bool, true, false, Option, some, none, if◌then◌else◌, ◌==◌, ◌≡◌,
  ◌<>◌, refl, sym, ◌∙◌, ap, inl, inr, Bool-cases, eq_iff,
}
use fancy_flow_rs.Platform.{Platform}
use fancy_flow_rs.Executors.{ExecutionContext}
use fancy_flow_rs.Executors.Context.{value_or, option, option_str}
use fancy_flow_rs.Nodes.Expr.{evaluate_in, text}
use fancy_flow_rs.Nodes.Shaping.{gives}
use fancy_flow_rs.Nodes.Stores.{
  KeyValueStore, listed, items_before, payload, memory_store, namespaced, row_key, data_store,
}

module _ ⦃P : Platform⦄ where
  open P use {Value, null, array}

  abbrev at_end : Option (List Value) → Value → Value → List Value
  at_end (some items) before v = items ++ v ∷ []
  at_end none before v = before ∷ v ∷ []

  -- A list with a value at its end: a list of its own where nothing stood there, and what stood there
  -- as its first element where that was no list.
  abbrev pub with_last : Option Value → Value → List Value
  with_last none v = v ∷ []
  with_last (some before) v = at_end (P.as_array before) before v

  abbrev pub configured : ExecutionContext → Value
  configured ctx = evaluate_in (option ctx "value") ctx.inputs

  -- What a memory node leaves under a key, from what stood there.
  abbrev pub remembered : String → ExecutionContext → Option Value → Option Value
  remembered k ctx before =
      if option_str ctx "key" "" == k
      then (if option_str ctx "operation" "read" == "write"
          then some (configured ctx)
          else if option_str ctx "operation" "read" == "append"
          then some (array (with_last before (configured ctx)))
          else before)
      else before

  -- The table and the key that a data node names, as one text.
  abbrev pub place : ExecutionContext → String
  place ctx = option_str ctx "table" "default" <> "/" <> text (option ctx "key")

  -- What a data node leaves under a key of the store, from what stood there.
  abbrev pub written : String → ExecutionContext → Option Value → Option Value
  written k ctx before =
      if place ctx == k
      then (if option_str ctx "operation" "get" == "set"
          then some (configured ctx)
          else if option_str ctx "operation" "get" == "delete"
          then none
          else before)
      else before

  -- What nodes that run one after the other leave.
  abbrev pub left_by :
      (ExecutionContext → Option Value → Option Value)
      → List ExecutionContext
      → Option Value
      → Option Value
  left_by f [] before = before
  left_by f (ctx ∷ later) before = left_by f later (f ctx before)

  abbrev pub after_memory : (K : KeyValueStore) → List ExecutionContext → K.Store → K.Store
  after_memory K [] s = s
  after_memory K (ctx ∷ later) s = after_memory K later (memory_store K ctx s).1

  abbrev pub after_data :
      (Value → Value → Bool) → (K : KeyValueStore) → List ExecutionContext → K.Store → K.Store
  after_data same K [] s = s
  after_data same K (ctx ∷ later) s = after_data same K later (data_store same K ctx s).1

  items_before-with_last :
      (before : Option Value) (v : Value) → items_before before ++ v ∷ [] ≡ with_last before v
  unfolding items_before
  items_before-with_last none v = refl
  items_before-with_last (some before) v = listed-at_end (P.as_array before)
    where
      listed-at_end : (l : Option (List Value)) → listed l before ++ v ∷ [] ≡ at_end l before v
      listed-at_end (some items) = refl
      listed-at_end none = refl

  module _ (K : KeyValueStore) (s : K.Store) (k : String) where
    at_key :
        (j : String) (f : Option Value → Value)
        → K.get (K.set s j (f (K.get s j))) k ≡ (if j == k then some (f (K.get s k)) else K.get s k)
    at_key j f = K.get-set s j (f (K.get s j)) k ∙ (elim (Bool-cases (j == k)) [
      | inl e ↦ rw e (ap (λ i. some (f (K.get s i))) ((eq_iff j k).0 e))
      | inr e ↦ rw e refl
    ])

    if_same : (b : Bool) (o : Option Value) → (if b then o else o) ≡ o
    if_same true o = refl
    if_same false o = refl

    memory_store-remembered :
        (ctx : ExecutionContext) → K.get (memory_store K ctx s).1 k ≡ remembered k ctx (K.get s k)
    unfolding memory_store
    memory_store-remembered ctx =
        let key = option_str ctx "key" "" in
        elim (Bool-cases (option_str ctx "operation" "read" == "write")) [
          | inl e ↦ rw e (K.get-set s key (payload ctx) k)
          | inr e ↦ elim (Bool-cases (option_str ctx "operation" "read" == "append")) [
            | inl e' ↦
                rw (e, e')
                  (at_key key (λ before. array (items_before before ++ payload ctx ∷ []))
                    ∙ ap (λ l. if key == k then some (array l) else K.get s k)
                        (items_before-with_last (K.get s k) (payload ctx)))
            | inr e' ↦ rw (e, e') (sym (if_same (key == k) (K.get s k)))
          ]
        ]

    no_write :
        (same : Value → Value → Bool) (ctx : ExecutionContext)
        → (option_str ctx "operation" "get" == "set") ≡ false
        → (option_str ctx "operation" "get" == "delete") ≡ false
        → (data_store same K ctx s).1 ≡ s
    unfolding data_store
    no_write same ctx e e' = elim (Bool-cases (option_str ctx "operation" "get" == "list")) [
      | inl l ↦ rw (e, e', l) refl
      | inr l ↦ elim (Bool-cases (option_str ctx "operation" "get" == "query")) [
        | inl q ↦ rw (e, e', l, q) refl
        | inr q ↦ rw (e, e', l, q) refl
      ]
    ]

    written-other :
        (ctx : ExecutionContext)
        → (option_str ctx "operation" "get" == "set") ≡ false
        → (option_str ctx "operation" "get" == "delete") ≡ false
        → (before : Option Value) → before ≡ written k ctx before
    written-other ctx e e' before = rw (e, e') (sym (if_same (place ctx == k) before))

    data_store-written :
        (same : Value → Value → Bool) (ctx : ExecutionContext)
        → K.get (data_store same K ctx s).1 k ≡ written k ctx (K.get s k)
    unfolding data_store row_key namespaced
    data_store-written same ctx = elim (Bool-cases (option_str ctx "operation" "get" == "set")) [
      | inl e ↦ rw e (K.get-set s (place ctx) (payload ctx) k)
      | inr e ↦ elim (Bool-cases (option_str ctx "operation" "get" == "delete")) [
        | inl e' ↦ rw (e, e') (K.get-delete s (place ctx) k)
        | inr e' ↦ ap (λ t. K.get t k) (no_write same ctx e e') ∙ written-other ctx e e' (K.get s k)
      ]
    ]

  module _ (K : KeyValueStore) (k : String) where
    after_memory-left_by :
        (writers : List ExecutionContext) (s : K.Store)
        → K.get (after_memory K writers s) k ≡ left_by (remembered k) writers (K.get s k)
    after_memory-left_by [] s = refl
    after_memory-left_by (ctx ∷ later) s =
        after_memory-left_by later (memory_store K ctx s).1
        ∙ ap (left_by (remembered k) later) (memory_store-remembered K s k ctx)

    after_data-left_by :
        (same : Value → Value → Bool) (writers : List ExecutionContext) (s : K.Store)
        → K.get (after_data same K writers s) k ≡ left_by (written k) writers (K.get s k)
    after_data-left_by same [] s = refl
    after_data-left_by same (ctx ∷ later) s =
        after_data-left_by same later (data_store same K ctx s).1
        ∙ ap (left_by (written k) later) (data_store-written K s k same ctx)

  memory_store-read :
      (K : KeyValueStore) (reader : ExecutionContext) (s : K.Store)
      → option_str reader "operation" "read" ≡ "read"
      → (memory_store K reader s).0 ≡ gives (value_or (K.get s (option_str reader "key" "")) null)
  unfolding memory_store
  memory_store-read K reader s reads = rw reads refl

  data_store-read :
      (same : Value → Value → Bool) (K : KeyValueStore) (reader : ExecutionContext) (s : K.Store)
      → option_str reader "operation" "get" ≡ "get"
      → (data_store same K reader s).0 ≡ gives (value_or (K.get s (place reader)) null)
  unfolding data_store row_key namespaced
  data_store-read same K reader s reads = rw reads refl

  -- A node that reads after other nodes ran one after the other, over any store that keeps the contract,
  -- gives what they left under its key, or null where nothing is left. Each memory node under the same
  -- key replaces what stood there by its value, or puts its value at the end of it: of the list that
  -- stood there, of a value that is no list as the first element, or of nothing. Each data node whose
  -- table, a slash and whose key make the same text replaces what stood there by its value, or removes
  -- it. Any other node leaves it alone.
  pub memory_store-data_store :
      (same : Value → Value → Bool) (K : KeyValueStore) (s : K.Store)
      (writers : List ExecutionContext) (reader other : ExecutionContext)
      → option_str reader "operation" "read" ≡ "read"
      → option_str other "operation" "get" ≡ "get"
      → ((memory_store K reader (after_memory K writers s)).0
          ≡ gives (
              value_or
                (left_by
                  (remembered (option_str reader "key" ""))
                  writers
                  (K.get s (option_str reader "key" "")))
                null))
        × ((data_store same K other (after_data same K writers s)).0
            ≡ gives
                (value_or (left_by (written (place other)) writers (K.get s (place other))) null))
  memory_store-data_store same K s writers reader other reads gets = (
    memory_store-read K reader (after_memory K writers s) reads
        ∙ ap (λ o. gives (value_or o null))
            (after_memory-left_by K (option_str reader "key" "") writers s),
    data_store-read same K other (after_data same K writers s) gets
        ∙ ap (λ o. gives (value_or o null)) (after_data-left_by K (place other) same writers s),
  )
