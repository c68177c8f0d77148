-- ===== src/Nodes/Structural.antt =====
-- nodes/structural.rs: the nodes that run a graph of their own. `kinds` and `executors` stand for the
-- tables of registry/builtin.rs, and the resolver of workflows is the host's.
pub mod Depth
use fancy_flow_rs.Prelude.{
  ℕ, ◌+◌, List, [], ◌∷◌, String, Bool, true, false, Option, some, none, if◌then◌else◌, ◌==◌, ◌<>◌,
  any, leb,
}
use fancy_flow_rs.Prelude.Scan.{is_blank, trim}
use fancy_flow_rs.Prelude.BTreeMap
use fancy_flow_rs.Prelude.BTreeMap.{BTreeMap}
use fancy_flow_rs.Platform.{Platform}
use fancy_flow_rs.Schema.{FlowEdge, FlowNode, FlowGraph, or_text}
use fancy_flow_rs.Registry.Catalogue.{NodeKindRegistry}
use fancy_flow_rs.Runtime.Identity.{RunIdentity, descend}
use fancy_flow_rs.Runtime.Options.{default_options}
use fancy_flow_rs.Executors.{ExecutorRegistry, ExecutionContext, Reply, Outcome, value, aborted}
use fancy_flow_rs.Executors.Context.{option, option_str, input_or_all}
use fancy_flow_rs.Engine.Walk.{Setup}
use fancy_flow_rs.Engine.Stepping.{Execute, Finish, finish_ok, finish_cancelled, run}
use fancy_flow_rs.Nodes.ForEach.{outputs_map}
use fancy_flow_rs.Workflow.Import.{import_workflow}

abbrev pub default_max_depth : ℕ
default_max_depth = 8

unfoldable pub is_target : List FlowEdge → String → Bool
is_target edges id = any (λ edge. edge.target == id) edges

module _ ⦃P : Platform⦄ where
  open P use {Value, Map, World, object, empty, as_object}

  unfoldable pub seed_nodes : List FlowEdge → Map → BTreeMap Map → List FlowNode → BTreeMap Map
  unfolding is_target BTreeMap.insert
  seed_nodes edges inputs seeded [] = seeded
  seed_nodes edges inputs seeded (node ∷ nodes) =
      seed_nodes edges inputs
        (if is_target edges node.id then seeded else BTreeMap.insert seeded node.id inputs) nodes

  -- The inputs, for each node that no edge leads to.
  unfoldable pub seed_entry_nodes : FlowGraph → Map → BTreeMap Map
  unfolding seed_nodes
  seed_entry_nodes graph inputs = seed_nodes graph.edges inputs [] graph.nodes

  abbrev pub descend_child : Option RunIdentity → String → Option RunIdentity
  descend_child (some run) node_id = some (descend run node_id none)
  descend_child none node_id = none

  abbrev pub reply : World → Outcome → Reply
  reply w outcome = record { world = w; emitted = []; outcome = outcome }

  -- The reason of a child that failed is the node's own.
  unfoldable pub child_outcome : Finish → Outcome
  unfolding outputs_map
  child_outcome (finish_cancelled reason) = aborted reason
  child_outcome (finish_ok result) =
      if result.ok
      then value (object (outputs_map empty result.outputs))
      else aborted (or_text result.error "subflow failed")

  abbrev pub child_reply : Option (Finish × World) → Option Reply
  child_reply none = none
  child_reply (some (end, w)) = some (reply w (child_outcome end))

  abbrev pub subgraph_too_deep : ExecutionContext → String
  subgraph_too_deep ctx = "subgraph nesting exceeded 8 levels at node " <> ctx.node.id

  abbrev pub subflow_too_deep : ExecutionContext → String
  subflow_too_deep ctx = "subflow nesting exceeded 8 levels at node " <> ctx.node.id

  abbrev pub is_document : Option Value → Option Value
  is_document (some v) = elim (as_object v) [ some m ↦ some v | none ↦ none ]
  is_document none = none

  unfoldable pub child_setup :
      NodeKindRegistry → ExecutorRegistry → ExecutionContext → FlowGraph → Setup
  unfolding seed_entry_nodes descend
  child_setup kinds executors ctx graph = record {
    graph = graph;
    executors = executors;
    kinds = some kinds;
    options = record default_options {
      initial_inputs = seed_entry_nodes graph ctx.inputs;
      depth = ctx.depth + 1;
      run = descend_child ctx.run ctx.node.id;
    };
    kind_lookup = record { runner = some kinds; executors = executors.kinds; builtin = kinds };
  }

  module _ (call : Execute) (kinds : NodeKindRegistry) (executors : ExecutorRegistry)
      (ctx : ExecutionContext) where
    -- `none` only where the sort of the graph does not end.
    unfoldable pub run_child : FlowGraph → World → Option Reply
    unfolding child_setup run child_outcome
    run_child graph w = child_reply (run call (child_setup kinds executors ctx graph) w)

    unfoldable pub run_document : Option Value → World → Option Reply
    unfolding input_or_all run_child import_workflow
    run_document none w = some (reply w (value (input_or_all ctx)))
    run_document (some document) w =
        if leb default_max_depth ctx.depth
        then some (reply w (aborted (subgraph_too_deep ctx)))
        else run_child (import_workflow document true kinds).graph w

    unfoldable pub subgraph : World → Option Reply
    unfolding run_document option
    subgraph w = run_document (is_document (option ctx "graph")) w

    unfoldable pub run_resolved : String → Option FlowGraph × World → Option Reply
    unfolding run_child
    run_resolved reference (some graph, w) = run_child graph w
    run_resolved reference (none, w) =
        some (reply w (aborted ("subflow \"" <> reference <> "\" was not found")))

    unfoldable pub run_reference :
        Option (String → World → Option FlowGraph × World) → String → World → Option Reply
    unfolding run_resolved
    run_reference none reference w = some (
        reply w (
          aborted
            ("subflow \"" <> reference <> "\" cannot run: no WorkflowResolver is configured")))
    run_reference (some resolve) reference w = run_resolved reference (resolve reference w)

    unfoldable pub subflow :
        Option (String → World → Option FlowGraph × World) → World → Option Reply
    unfolding run_reference option_str trim
    subflow resolver w =
        let reference = option_str ctx "workflow" "" in
        if is_blank (trim reference)
        then some (reply w (aborted "subflow has no workflow reference configured"))
        else if leb default_max_depth ctx.depth
        then some (reply w (aborted (subflow_too_deep ctx)))
        else run_reference resolver reference w
