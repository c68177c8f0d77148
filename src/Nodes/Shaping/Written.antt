-- ===== src/Nodes/Shaping/Written.antt =====
-- nodes/logic.rs: which value stands under which key of what `merge` and `transform` give.
use fancy_flow_rs.Prelude.{
  List, [], ◌∷◌, ◌++◌, String, Option, some, none, if◌then◌else◌, ◌==◌, ◌≡◌, ◌≢◌, refl, sym, ◌∙◌,
  ap, ne→==-false,
}
use fancy_flow_rs.Platform.{Platform, View}
use fancy_flow_rs.Executors.{ExecutionContext}
use fancy_flow_rs.Executors.Context.{option_str}
use fancy_flow_rs.Nodes.Expr.{evaluate_in}
use fancy_flow_rs.Nodes.Shaping.{
  gives, insert_all, merge_port, merge_ports, merge, fields, transform_rows, transform_path,
  write_rows, transform,
}

module _ ⦃P : Platform⦄ where
  open P use {Value, Map, object, view, empty, get, entries}

  -- The value that a list of writes leaves under a key, from what stood there.
  abbrev pub last_of : String → List (String × Value) → Option Value → Option Value
  last_of key [] before = before
  last_of key ((k, v) ∷ writes) before = last_of key writes (if k == key then some v else before)

  -- What an input port writes into the merged object.
  abbrev pub writes_of : String → View Value Map P.Float → Value → List (String × Value)
  writes_of port View.null v = []
  writes_of port (View.object m) v = entries m
  writes_of port _ v = (port, v) ∷ []

  abbrev pub all_writes : List (String × Value) → List (String × Value)
  all_writes [] = []
  all_writes ((port, v) ∷ inputs) = writes_of port (view v) v ++ all_writes inputs

  abbrev pub evaluated : Map → List (String × Value) → List (String × Value)
  evaluated inputs [] = []
  evaluated inputs ((key, v) ∷ rows) = (key, evaluate_in (some v) inputs) ∷ evaluated inputs rows

  pub get-insert_all :
      (m : Map) (writes : List (String × Value)) (key : String)
      → get (insert_all m writes) key ≡ last_of key writes (get m key)
  unfolding insert_all
  get-insert_all m [] key = refl
  get-insert_all m ((k, v) ∷ writes) key =
      get-insert_all (P.insert m k v) writes key ∙ ap (last_of key writes) (P.get-insert m k v key)

  insert_all-append :
      (m : Map) (l l' : List (String × Value))
      → insert_all m (l ++ l') ≡ insert_all (insert_all m l) l'
  unfolding insert_all
  insert_all-append m [] l' = refl
  insert_all-append m ((k, v) ∷ l) l' = insert_all-append (P.insert m k v) l l'

  merge_port-writes :
      (m : Map) (port : String) (v : Value)
      → merge_port m port v ≡ insert_all m (writes_of port (view v) v)
  unfolding merge_port insert_all
  merge_port-writes m port v = by_view (view v) refl
    where
      by_view :
          (seen : View Value Map P.Float)
          → view v ≡ seen
          → merge_port m port v ≡ insert_all m (writes_of port seen v)
      by_view View.null e = rw (e, merge_port) refl
      by_view (View.object o) e = rw (e, merge_port) refl
      by_view (View.array l) e = rw (e, merge_port) refl
      by_view (View.bool b) e = rw (e, merge_port) refl
      by_view (View.number n) e = rw (e, merge_port) refl
      by_view (View.string s) e = rw (e, merge_port) refl

  merge_ports-writes :
      (m : Map) (inputs : List (String × Value))
      → merge_ports m inputs ≡ insert_all m (all_writes inputs)
  unfolding merge_ports insert_all
  merge_ports-writes m [] = refl
  merge_ports-writes m ((port, v) ∷ inputs) =
      merge_ports-writes (merge_port m port v) inputs
      ∙ ap (λ z. insert_all z (all_writes inputs)) (merge_port-writes m port v)
      ∙ sym (insert_all-append m (writes_of port (view v) v) (all_writes inputs))

  write_rows-insert_all :
      (inputs m : Map) (rows : List (String × Value))
      → write_rows inputs m rows ≡ insert_all m (evaluated inputs rows)
  unfolding write_rows insert_all
  write_rows-insert_all inputs m [] = refl
  write_rows-insert_all inputs m ((key, v) ∷ rows) =
      write_rows-insert_all inputs (P.insert m key (evaluate_in (some v) inputs)) rows

  get_written :
      (m : Map) (writes : List (String × Value)) (key : String)
      → m ≡ insert_all empty writes
      → get m key ≡ last_of key writes none
  get_written m writes key e =
      ap (λ z. get z key) e
      ∙ get-insert_all empty writes key
      ∙ ap (last_of key writes) (P.get-empty key)

  merge-last_of :
      (ctx : ExecutionContext)
      → option_str ctx "mode" "merge" ≢ "concat"
      → (m : Map) × (merge ctx ≡ gives (object m))
        × ((key : String) → get m key ≡ last_of key (all_writes (entries ctx.inputs)) none)
  unfolding merge
  merge-last_of ctx differs = (
    merge_ports empty (entries ctx.inputs),
    rw (ne→==-false (option_str ctx "mode" "merge") "concat" differs, merge) refl,
    λ key.
        get_written (merge_ports empty (entries ctx.inputs)) (all_writes (entries ctx.inputs)) key
          (merge_ports-writes empty (entries ctx.inputs)),
  )

  transform-last_of :
      (ctx : ExecutionContext)
      → transform_path ctx.node.config ≡ fields
      → (m : Map) × (transform ctx ≡ gives (object m))
        × ((key : String)
            → get m key ≡ last_of key (evaluated ctx.inputs (transform_rows ctx.node.config)) none)
  unfolding transform
  transform-last_of ctx by_fields = (
    write_rows ctx.inputs empty (transform_rows ctx.node.config),
    rw (by_fields, transform) refl,
    λ key.
        get_written (write_rows ctx.inputs empty (transform_rows ctx.node.config))
          (evaluated ctx.inputs (transform_rows ctx.node.config)) key
          (write_rows-insert_all ctx.inputs empty (transform_rows ctx.node.config)),
  )

  -- `merge` outside the mode `concat`, and `transform` on the fields path, give an object that has
  -- under each key what was written there last, and nothing under other keys. In a merge the ports
  -- write in the order of the inputs: an object its entries, null nothing, and any other value itself
  -- under the name of the port. In a transformation each row writes its value, evaluated over the
  -- inputs.
  pub merge-transform :
      (merging transforming : ExecutionContext)
      → option_str merging "mode" "merge" ≢ "concat"
      → transform_path transforming.node.config ≡ fields
      → ((m : Map) × (merge merging ≡ gives (object m))
          × ((key : String) → get m key ≡ last_of key (all_writes (entries merging.inputs)) none))
        × ((m : Map) × (transform transforming ≡ gives (object m))
            × ((key : String)
                → get m key
                  ≡ last_of key
                      (evaluated transforming.inputs (transform_rows transforming.node.config))
                      none))
  merge-transform merging transforming differs by_fields =
      (merge-last_of merging differs, transform-last_of transforming by_fields)
