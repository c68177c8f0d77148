-- ===== src/Nodes/Shaping.antt =====
-- nodes/logic.rs: `merge`, `wait` and `transform`, which reshape their input.
pub mod Written
pub mod Admitted
use fancy_flow_rs.Prelude.{
  List, [], ◌∷◌, ◌++◌, String, Bool, true, false, not, Option, some, none, if◌then◌else◌, ◌==◌,
  ◌||◌, ◌<>◌,
}
use fancy_flow_rs.Prelude.Scan.{is_blank, js_trim}
use fancy_flow_rs.Platform.{Platform, View}
use fancy_flow_rs.Runtime.Events.{info, log}
use fancy_flow_rs.Executors.{ExecutionContext, value}
use fancy_flow_rs.Executors.Context.{
  Ran, value_or, input_or_all, unless_null, option, option_str, text_of,
}
use fancy_flow_rs.Nodes.Expr.{evaluate_in}

module _ ⦃P : Platform⦄ where
  open P use {
    Value, Map, null, string, array, object, view, as_array, as_object, as_str, empty, insert, get,
    entries,
  }

  -- `Ok(value)` with nothing emitted
  abbrev pub gives : Value → Ran
  gives v = ([], value v)

  unfoldable pub insert_all : Map → List (String × Value) → Map
  insert_all m [] = m
  insert_all m ((key, v) ∷ l) = insert_all (insert m key v) l

  -- An object is merged in by key, and anything else under its port.
  unfoldable pub merge_port : Map → String → Value → Map
  unfolding insert_all
  merge_port merged port v = elim (view v) [
    | View.null ↦ merged
    | View.object m ↦ insert_all merged (entries m)
    | View.array l ↦ insert merged port v
    | View.bool b ↦ insert merged port v
    | View.number n ↦ insert merged port v
    | View.string s ↦ insert merged port v
  ]

  unfoldable pub merge_ports : Map → List (String × Value) → Map
  unfolding merge_port
  merge_ports merged [] = merged
  merge_ports merged ((port, v) ∷ inputs) = merge_ports (merge_port merged port v) inputs

  unfoldable pub flattened : Value → List Value
  flattened v = elim (view v) [
    | View.null ↦ []
    | View.array items ↦ items
    | View.object m ↦ v ∷ []
    | View.bool b ↦ v ∷ []
    | View.number n ↦ v ∷ []
    | View.string s ↦ v ∷ []
  ]

  unfoldable pub concat_ports : List (String × Value) → List Value
  unfolding flattened
  concat_ports [] = []
  concat_ports ((port, v) ∷ inputs) = flattened v ++ concat_ports inputs

  unfoldable pub merge : ExecutionContext → Ran
  unfolding option_str concat_ports merge_ports
  merge ctx =
      if option_str ctx "mode" "merge" == "concat"
      then gives (array (concat_ports (entries ctx.inputs)))
      else gives (object (merge_ports empty (entries ctx.inputs)))

  unfoldable pub wait : ExecutionContext → Ran
  unfolding option_str option input_or_all
  wait ctx =
      let mode = option_str ctx "mode" "duration" in
      (
        log info ("wait (" <> mode <> ") - not sleeping in framework-free mode") (some ctx.node.id)
            ∷ [],
        value (
            object (
              insert
                (insert (insert empty "waited" (string mode)) "duration"
                  (value_or (option ctx "duration") null))
                "input" (input_or_all ctx))),
      )

  pub data TransformPath : Type 0 where
    expression : TransformPath
    fields : TransformPath
    input : TransformPath

  abbrev has_text : Option String → Bool
  has_text (some s) = not (is_blank (js_trim s))
  has_text none = false

  abbrev is_absent : Option Value → Bool
  is_absent (some v) = false
  is_absent none = true

  abbrev names_expression : Option String → Bool
  names_expression (some s) = s == "expression"
  names_expression none = false

  abbrev pub keyed : Option String → Value → List (String × Value)
  keyed (some key) v = if is_blank (js_trim key) then [] else (js_trim key, v) ∷ []
  keyed none v = []

  -- The row of fields mode that an item stands for, if it stands for one.
  unfoldable pub transform_row : Option Map → List (String × Value)
  unfolding js_trim
  transform_row none = []
  transform_row (some row) = keyed (text_of (get row "key")) (value_or (get row "value") null)

  unfoldable pub rows_of : List Value → List (String × Value)
  unfolding transform_row
  rows_of [] = []
  rows_of (row ∷ rows) = transform_row (as_object row) ++ rows_of rows

  abbrev pub rows_in : Option Value → List (String × Value)
  unfolding rows_of
  rows_in none = []
  rows_in (some v) = elim (as_array v) [ some rows ↦ rows_of rows | none ↦ [] ]

  unfoldable pub transform_rows : Map → List (String × Value)
  unfolding rows_of
  transform_rows config = rows_in (get config "fields")

  abbrev by_rows : List (String × Value) → TransformPath
  by_rows [] = input
  by_rows (row ∷ rows) = fields

  unfoldable pub transform_path : Map → TransformPath
  unfolding transform_rows js_trim
  transform_path config =
      let mode = unless_null (get config "mode") in
      let expression_mode = names_expression (text_of mode) in
      let from_rows = by_rows (transform_rows config) in
      if is_absent mode || expression_mode
      then (if has_text (text_of (get config "expression"))
          then expression
          else if expression_mode
          then input
          else from_rows)
      else from_rows

  unfoldable pub write_rows : Map → Map → List (String × Value) → Map
  unfolding evaluate_in
  write_rows inputs out [] = out
  write_rows inputs out ((key, v) ∷ rows) =
      write_rows inputs (insert out key (evaluate_in (some v) inputs)) rows

  unfoldable pub transform : ExecutionContext → Ran
  unfolding transform_path transform_rows write_rows evaluate_in input_or_all
  transform ctx = elim (transform_path ctx.node.config) [
    | expression ↦ gives (evaluate_in (get ctx.node.config "expression") ctx.inputs)
    | fields ↦ gives (object (write_rows ctx.inputs empty (transform_rows ctx.node.config)))
    | input ↦ gives (input_or_all ctx)
  ]
