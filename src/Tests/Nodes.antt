-- ===== src/Tests/Nodes.antt =====
-- The theorems about the executors of the crate, at concrete inputs.
use mathlib.Core.List.{Memᴰ}
use fancy_flow_rs.Prelude.{
  ℕ, ◌+◌, List, [], ◌∷◌, String, true, false, Option, some, none, ◌≡◌, ◌⊎◌, refl, if◌then◌else◌,
  nat_beq,
}
use fancy_flow_rs.Prelude.Scan.{js_trim}
use fancy_flow_rs.Schema.{FlowGraph}
use fancy_flow_rs.Registry.Catalogue.{empty_registry, register, get}
use fancy_flow_rs.Registry.Builtin.{row_schema, transform_kind}
use fancy_flow_rs.Registry.Validation.{all_blank, validate_config}
use fancy_flow_rs.Executors.{ExecutionContext, value, Reply}
use fancy_flow_rs.Executors.Context.{value_or, option_str}
use fancy_flow_rs.Nodes.Shaping.{gives, merge, transform, transform_path, transform_rows}
use fancy_flow_rs.Nodes.Shaping.Written.{last_of, all_writes, evaluated, merge-transform}
use fancy_flow_rs.Nodes.Shaping.Admitted.{transform_rows-validate_config}
use fancy_flow_rs.Nodes.Structural.{subgraph, subflow}
use fancy_flow_rs.Nodes.Structural.Depth.{subgraph-subflow-agree}
use fancy_flow_rs.Nodes.Stores.{memory, memory_store, data_store, row_key}
use fancy_flow_rs.Nodes.Stores.Written.{
  remembered, written, left_by, after_memory, after_data, place, memory_store-data_store,
}
use fancy_flow_rs.Prelude.{any}
use fancy_flow_rs.Prelude.Scan.{trim}
use fancy_flow_rs.Registry.Kind.{no_fields}
use fancy_flow_rs.Registry.Document.{kind_value, kind_from_value, kind_from_value-kind_value}
use fancy_flow_rs.Marketplace.{clauses, satisfies_range, parse_version}
use fancy_flow_rs.Marketplace.Ranges.{within_some, clause_interval, satisfies_range-within}
use fancy_flow_rs.Tests.Sample.{
  sample, line, bound, answer, node, text, nothing, list, last, item, table, Json, Fields, field,
  end, get_field, field_list,
}

abbrev configured : Fields → ExecutionContext
configured config = record {
  node = record (node "n") { config = config };
  inputs = field "in" (table (field "a" (text "x") end)) (field "b" (text "y") end);
  depth = 0;
  run = none;
  graph = line;
  executors = bound;
  kinds = none;
}

abbrev row : Fields
row = field "key" (text " k ") (field "value" (text "v") end)

abbrev rows : List Json
rows = table row ∷ []

abbrev reshaping : Fields
reshaping = field "mode" (text "fields") (field "fields" (list (item (table row) last)) end)

abbrev merging : ExecutionContext
merging = configured end

abbrev transforming : ExecutionContext
transforming = configured reshaping

merge-transform_example :
    ((m : Fields) × (merge merging ≡ gives (table m))
      × ((key : String)
          → get_field m key ≡ last_of key (all_writes (field_list merging.inputs)) none))
    × ((m : Fields) × (transform transforming ≡ gives (table m))
        × ((key : String)
            → get_field m key
              ≡ last_of key (evaluated transforming.inputs (transform_rows reshaping)) none))
unfolding transform_path get_field option_str fancy_flow_rs.Tests.Sample.of_items
merge-transform_example = merge-transform merging transforming (cc) refl

transform_rows-validate_config_example :
    (all_blank true row_schema row ≡ true)
    ⊎ Memᴰ (js_trim " k ", value_or (get_field row "value") nothing) (transform_rows reshaping)
unfolding validate_config register get transform_kind get_field fancy_flow_rs.Tests.Sample.of_items
transform_rows-validate_config_example =
    transform_rows-validate_config (register empty_registry transform_kind) "transform" reshaping
      (list (item (table row) last)) rows (table row) row (text " k ") " k " refl refl refl refl
      (Memᴰ.head refl) refl refl refl

-- A host that answers as `answer` does one level down, and with null elsewhere.
abbrev shallow : ℕ → ExecutionContext → ℕ → Reply
shallow h ctx w =
    if nat_beq ctx.depth 1
    then answer h ctx w
    else record { world = w; emitted = []; outcome = value nothing }

abbrev child : Json
child = table (
    field "graph"
      (table (
        field "nodes"
          (list (item (table (field "id" (text "a") (field "kind" (text "task") end))) last)) end))
      end)

abbrev nesting : ExecutionContext
nesting = configured (field "workflow" (text "w") (field "graph" child end))

abbrev resolve : String → ℕ → Option FlowGraph × ℕ
resolve reference w = (some line, w + 1)

subgraph-subflow-agree_example :
    (subgraph answer empty_registry bound nesting 0
      ≡ subgraph shallow empty_registry bound nesting 0)
    × (subflow answer empty_registry bound nesting (some resolve) 0
        ≡ subflow shallow empty_registry bound nesting (some resolve) 0)
subgraph-subflow-agree_example =
    subgraph-subflow-agree empty_registry bound nesting answer shallow
      (λ h below w is_below. rw is_below.deeper refl) (some resolve) 0

abbrev setting : ExecutionContext
setting =
    configured
      (field "operation" (text "set") (field "key" (text "k") (field "value" (text "v") end)))

abbrev getting : ExecutionContext
getting = configured (field "key" (text "k") end)

memory_store-data_store_example :
    ((memory_store memory getting (after_memory memory (setting ∷ []) [])).0
      ≡ gives (
          value_or
            (left_by (remembered (option_str getting "key" "")) (setting ∷ []) none)
            nothing))
    × ((data_store
          (λ v w. false)
          memory
          getting
          (after_data (λ v w. false) memory (setting ∷ []) [])).0
        ≡ gives (value_or (left_by (written (place getting)) (setting ∷ []) none) nothing))
unfolding option_str get_field fancy_flow_rs.Nodes.Stores.Memory.get
memory_store-data_store_example =
    memory_store-data_store (λ v w. false) memory [] (setting ∷ []) getting getting refl refl

satisfies_range-within_example :
    satisfies_range "v0.5.2" " ^0.5 || >=2.0"
    ≡ any
        (λ clause. within_some (0, 5, 2) (clause_interval (trim clause)))
        (clauses (trim " ^0.5 || >=2.0"))
unfolding trim parse_version
satisfies_range-within_example =
    satisfies_range-within "v0.5.2" " ^0.5 || >=2.0" (0, 5, 2) refl refl

-- The caret below 1.0.0 keeps the second number.
caret_below_one : satisfies_range "0.6.0" "^0.5" ≡ false
unfolding satisfies_range
caret_below_one = refl

kind_from_value-kind_value_example :
    kind_from_value (kind_value transform_kind)
    ≡ some (record transform_kind { config_schema = no_fields; output_shape = none; emits = none })
kind_from_value-kind_value_example = kind_from_value-kind_value transform_kind
