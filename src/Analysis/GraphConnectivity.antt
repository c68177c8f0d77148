-- ===== src/Analysis/GraphConnectivity.antt =====
-- analysis/graph_connectivity.rs: nodes that take no part in the dataflow. schema/mod.rs: the issues
-- that a check reports.
pub mod Accepted
use fancy_flow_rs.Prelude.{
  ℕ, zero, suc, ◌+◌, ◌-◌, ◌*◌, ◌≤◌, ◌<◌, ◌^◌, ℤ, List, [], ◌∷◌, ◌++◌, map, append-nil, append_assoc,
  String, Bool, true, false, not, Option, some, none, if◌then◌else◌, ◌==◌, ◌&&◌, ◌||◌, ◌≡◌, ◌≢◌,
  ◌↔◌, ◌⊎◌, inl, inr, refl, sym, ap, subst, ◌∙◌, arith, eq_iff, eq_refl, ltb, leb, nat_beq, tests,
  ltb→lt, leb→le, Option-cases, Bool-cases, ==-cases, ne→==-false, length, get_elem?, take, any,
  all, length-append, length-take-le, min, max, ◌<>◌, ltb_ℤ, saturating_sub, display,
}
use fancy_flow_rs.Prelude.BTreeMap
use fancy_flow_rs.Prelude.BTreeMap.{BTreeMap}
use fancy_flow_rs.Platform.{Platform}
use fancy_flow_rs.Schema.{PortDescriptor, FlowNode, FlowEdge}
use fancy_flow_rs.Registry.Kind.{NodeKind}
use fancy_flow_rs.Registry.KindId.{contains, matches}
use fancy_flow_rs.Registry.Catalogue.{NodeKindRegistry}
use fancy_flow_rs.Registry.Catalogue
use fancy_flow_rs.Engine.Undelivered.{index_nodes}

pub data Severity : Type 0 where
  error warning : Severity

pub record ImportIssue : Type 0 where
  pub severity : Severity
  pub message : String
  pub node_id : Option String
  pub edge_id : Option String

abbrev pub issue : String → ImportIssue
issue message = record { severity = error; message = message; node_id = none; edge_id = none }

abbrev pub warning_issue : String → ImportIssue
warning_issue message = record {
  severity = warning;
  message = message;
  node_id = none;
  edge_id = none;
}

abbrev pub is_error : ImportIssue → Bool
is_error i = elim i.severity [ error ↦ true | warning ↦ false ]

abbrev pub at_node : ImportIssue → String → ImportIssue
at_node i node_id = record i { node_id = some node_id }

abbrev pub at_edge : ImportIssue → String → ImportIssue
at_edge i edge_id = record i { edge_id = some edge_id }

abbrev declares_nothing : Option (List PortDescriptor) → Bool
declares_nothing (some []) = true
declares_nothing (some (p ∷ ports)) = false
declares_nothing none = false

abbrev floating_message : String → String
floating_message id =
    "Node \"" <> id
    <> "\" is connected to nothing - no inbound edge and no outbound edge. It still RUNS (a node with no inbound edge is a root), but it receives nothing from the graph and reaches nobody in it, so it is either unwired or left behind by a deletion. Only a note, an annotation or a lane may float."

abbrev terminal_message : FlowEdge → String
terminal_message edge =
    "Edge \"" <> edge.id <> "\" reads from \"" <> edge.source
    <> "\", which is a TERMINAL node and publishes no output ports at all. Nothing can ever travel this edge: it does not fail at run time, it delivers nothing, and \""
    <> edge.target <> "\" runs anyway with an empty input."

module _ ⦃P : Platform⦄ where
  abbrev floats : Option NodeKind → Bool
  floats none = true
  floats (some kind) = kind.category == "annotation" || kind.category == "layout"

  abbrev ends : Option NodeKind → Bool
  ends none = false
  ends (some kind) = declares_nothing kind.outputs

  unfoldable pub may_float : FlowNode → NodeKindRegistry → Bool
  unfolding matches Catalogue.get
  may_float node registry = elim node.kind [
    | none ↦ false
    | some kind_name ↦
        if kind_name == ""
        then false
        else if matches kind_name "note"
        then true
        else floats (Catalogue.get registry kind_name)
  ]

  unfoldable pub is_terminator : FlowNode → NodeKindRegistry → Bool
  unfolding Catalogue.get
  is_terminator node registry = elim node.outputs [
    | some ports ↦ declares_nothing (some ports)
    | none ↦ elim node.kind [
      | none ↦ false
      | some kind_name ↦ ends (Catalogue.get registry kind_name)
    ]
  ]

  unfoldable pub targets : List FlowEdge → List String
  targets edges = map (λ e. e.target) edges

  unfoldable pub sources : List FlowEdge → List String
  sources edges = map (λ e. e.source) edges

  abbrev unconnected : List FlowEdge → FlowNode → Bool
  unfolding contains targets sources
  unconnected edges node =
      not (contains (targets edges) node.id) && not (contains (sources edges) node.id)

  -- The loop over the nodes; `single` stands for a graph with one node.
  unfoldable pub floating_issues :
      Bool → List FlowEdge → NodeKindRegistry → List FlowNode → List ImportIssue
  unfolding may_float unconnected
  floating_issues single edges registry [] = []
  floating_issues single edges registry (node ∷ nodes) =
      let rest = floating_issues single edges registry nodes in
      if single || may_float node registry
      then rest
      else if unconnected edges node
      then at_node (issue (floating_message node.id)) node.id ∷ rest
      else rest

  abbrev terminal : BTreeMap FlowNode → NodeKindRegistry → FlowEdge → Bool
  unfolding BTreeMap.get is_terminator
  terminal by_id registry edge = elim (BTreeMap.get by_id edge.source) [
    | none ↦ false
    | some source ↦ is_terminator source registry
  ]

  -- The loop over the edges.
  unfoldable pub terminal_issues :
      BTreeMap FlowNode → NodeKindRegistry → List FlowEdge → List ImportIssue
  unfolding terminal
  terminal_issues by_id registry [] = []
  terminal_issues by_id registry (edge ∷ edges) =
      let rest = terminal_issues by_id registry edges in
      if terminal by_id registry edge
      then at_edge (issue (terminal_message edge)) edge.id ∷ rest
      else rest

  unfoldable pub check_graph_connectivity :
      List FlowNode → List FlowEdge → NodeKindRegistry → List ImportIssue
  unfolding floating_issues terminal_issues index_nodes
  check_graph_connectivity nodes edges registry =
      floating_issues (nat_beq (length nodes) 1) edges registry nodes
      ++ terminal_issues (index_nodes [] nodes) registry edges
