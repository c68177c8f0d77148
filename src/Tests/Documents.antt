-- ===== src/Tests/Documents.antt =====
-- The theorems about templates, lanes, documents, policies and gates, at concrete inputs.
use fancy_flow_rs.Prelude.{[], ◌∷◌, String, true, false, some, none, ◌≡◌, ◌↔◌, inr, refl}
use fancy_flow_rs.Schema.{FlowGraph, FlowNode}
use fancy_flow_rs.Schema.Metadata.{WorkflowMetadata}
use fancy_flow_rs.Registry.KindId.{dedup_extend}
use fancy_flow_rs.Registry.Catalogue.{empty_registry, get}
use fancy_flow_rs.Executors.{ExecutionContext, host}
use fancy_flow_rs.Nodes.Expr.{interpolate}
use fancy_flow_rs.Nodes.Expr.Interpolation.{written, filled, interpolate-written}
use fancy_flow_rs.Nodes.Routing.{branch, switch_case}
use fancy_flow_rs.Nodes.Routing.Choice.{BranchesTo, SwitchesTo}
use fancy_flow_rs.Nodes.Routing.OnePort.{Routes, branch-switch_case-Routes}
use fancy_flow_rs.Nodes.Lane.{for_each_lane}
use fancy_flow_rs.Nodes.Lane.Body.{Derived, for_each_lane-Derived}
use fancy_flow_rs.Nodes.ForEach.{run_items, item_setup}
use fancy_flow_rs.Nodes.ForEach.Entering.{get-context_for-item_setup}
use fancy_flow_rs.Engine.Walk.{Step, incoming}
use fancy_flow_rs.Engine.Walk.Inputs.{last_active}
use fancy_flow_rs.Engine.Stepping.{context_for}
use fancy_flow_rs.Tests.Walks.{begun}
use fancy_flow_rs.Nodes.ForEach.Iteration.{Ends, run_items-Ends}
use fancy_flow_rs.Workflow.Export.{export_workflow}
use fancy_flow_rs.Workflow.Import.{import_workflow, default_config_of}
use fancy_flow_rs.Workflow.RoundTrip.{IsKept, IsJoined, import_workflow-export_workflow}
use fancy_flow_rs.Analysis.GraphPolicy.{trusted}
use fancy_flow_rs.Analysis.GraphPolicy.Inspection.{accepts, assert_safe, safe}
use fancy_flow_rs.Analysis.GraphPolicy.Acceptance.{is_safe_graph, accepts-is_safe_graph}
use fancy_flow_rs.Durable.Human.{
  unborrowed, no_submissions, answer_for, given, input_detail, approval_detail, decide,
  durable_user_input, durable_approval,
}
use fancy_flow_rs.Durable.Human.Endings.{Gated}
use fancy_flow_rs.Durable.Human.Gate.{Decides, Resumes, durable-Gated, durable-Resumes}
use fancy_flow_rs.Tests.Sample.{
  sample, line, bound, answer, node, edge, text, nothing, table, Json, Fields, field, end,
  get_field,
}

-- An object with a name.
abbrev person : Json
person = table (field "name" (text "Ada") end)

interpolate-written_example :
    interpolate (written (("Hi ", "name") ∷ []) "!") person
    ≡ filled (("Hi ", "name") ∷ []) "!" person
interpolate-written_example =
    interpolate-written (("Hi ", "name") ∷ []) "!" person (refl, refl, tt) refl

abbrev context : ExecutionContext
context = record {
  node = record (node "a") { config = field "condition" (text "{{ in.name }}") end };
  inputs = field "in" person end;
  depth = 0;
  run = none;
  graph = line;
  executors = bound;
  kinds = none;
}

branch-switch_case-Routes_example :
    Routes none context "condition" (BranchesTo context) (branch context)
    × Routes none context "value" (SwitchesTo context) (switch_case context)
branch-switch_case-Routes_example = branch-switch_case-Routes none context

-- `a` repeats `b`, and then comes `c`.
abbrev looping : FlowGraph
looping = record {
  nodes = node "a" ∷ node "b" ∷ node "c" ∷ [];
  edges =
      record (edge "a" "b") { source_handle = some "item" }
      ∷ record (edge "a" "c") { source_handle = some "done" }
      ∷ [];
}

for_each_lane-Derived_example : Derived looping "a" (for_each_lane looping "a")
for_each_lane-Derived_example = for_each_lane-Derived looping "a"

run_items-Ends_example :
    Ends answer empty_registry context line
      (edge "x" "a" ∷ [])
      0
      (text "u" ∷ text "v" ∷ [])
      0
      []
      []
      (run_items answer empty_registry context line
        (edge "x" "a" ∷ [])
        0
        (text "u" ∷ text "v" ∷ [])
        []
        []
        0)
unfolding dedup_extend
run_items-Ends_example =
    run_items-Ends answer empty_registry context line (edge "x" "a" ∷ []) refl
      (text "u" ∷ text "v" ∷ []) 0 0 [] []

abbrev first_step : Step
first_step = record { index = 0; node = node "a"; executor = host 0 }

get-context_for-item_setup_example :
    let below =
      context_for
        (item_setup context empty_registry line (edge "x" "a" ∷ []) 0 (text "u"))
        begun
        first_step in
    (get_field below.inputs "in" ≡ some (text "u")) × (below.depth ≡ 1) × (below.graph ≡ line)
unfolding last_active incoming fancy_flow_rs.Schema.target_port
get-context_for-item_setup_example =
    get-context_for-item_setup context empty_registry line (edge "x" "a" ∷ []) 0 (text "u") begun
      first_step "in"

abbrev metadata : WorkflowMetadata
metadata = record {
  id = some "w";
  name = none;
  description = none;
  created_at = none;
  updated_at = none;
  author = some "Ada";
  tags = some ("x" ∷ []);
}

abbrev labelled_node : String → FlowNode
labelled_node id = record (node id) { label = some id }

abbrev labelled_line : FlowGraph
labelled_line = record {
  nodes = labelled_node "a" ∷ labelled_node "b" ∷ [];
  edges = edge "a" "b" ∷ [];
}

labelled_node-IsKept : (id : String) → IsKept empty_registry (labelled_node id)
unfolding default_config_of get
labelled_node-IsKept id = record {
  kind = "task";
  label = id;
  of_kind = refl;
  labelled = refl;
  finite_x = refl;
  finite_y = refl;
  configured = inr refl;
}

edge-IsJoined : IsJoined ("a" ∷ "b" ∷ []) (edge "a" "b")
unfolding fancy_flow_rs.Registry.KindId.contains
edge-IsJoined = record { from = refl; to = refl; out_of = tt; into = tt }

import_workflow-export_workflow_example :
    (import_workflow (export_workflow labelled_line (some metadata)) false empty_registry).graph
    ≡ labelled_line
import_workflow-export_workflow_example =
    import_workflow-export_workflow labelled_line (some metadata) false empty_registry
      (labelled_node-IsKept "a", (labelled_node-IsKept "b", tt)) (edge-IsJoined, tt)

accepts-is_safe_graph_example :
    (accepts trusted line ≡ is_safe_graph trusted line)
    × ((assert_safe trusted line ≡ safe) ↔ (accepts trusted line ≡ true))
accepts-is_safe_graph_example = accepts-is_safe_graph trusted line

durable-Gated_example :
    Gated context no_submissions unborrowed
      (λ a v. v ≡ a)
      "values"
      "input"
      (input_detail context)
      (durable_user_input unborrowed no_submissions context)
    × Gated context no_submissions unborrowed
        (Decides no_submissions context)
        "approved"
        "approval"
        (approval_detail context)
        (durable_approval unborrowed no_submissions context)
durable-Gated_example = durable-Gated no_submissions context unborrowed

durable-Resumes_example :
    Resumes no_submissions context
      (λ t. durable_user_input unborrowed t context)
      (λ a. a)
      (text "yes")
    × Resumes no_submissions context
        (λ t. durable_approval unborrowed t context)
        (decide context)
        (text "yes")
unfolding answer_for given fancy_flow_rs.Tests.Sample.get_field
durable-Resumes_example = durable-Resumes no_submissions context (text "yes") refl refl refl
