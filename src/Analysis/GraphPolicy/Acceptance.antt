-- ===== src/Analysis/GraphPolicy/Acceptance.antt =====
-- Which graphs a policy accepts.
use fancy_flow_rs.Prelude.{
  ℕ, List, [], ◌∷◌, ◌++◌, String, Bool, true, not, Option, some, none, ◌&&◌, ◌≡◌, ◌↔◌, ◌∙◌, refl,
  ap, arith, ltb, all, length, inl, inr, Bool-cases,
}
use fancy_flow_rs.Prelude.Scan.{byte_len}
use fancy_flow_rs.Platform.{Platform}
use fancy_flow_rs.Schema.{FlowNode, FlowGraph, or_text}
use fancy_flow_rs.Analysis.GraphConnectivity.{ImportIssue}
use fancy_flow_rs.Analysis.GraphPolicy.{GraphPolicy, permits}
use fancy_flow_rs.Analysis.GraphPolicy.Inspection.{
  levels_left, inspect_value, no_issues, unless_within, problem_in, inspect_node, inspect_nodes,
  inspect, accepts, safe, refused_for, assert_safe,
}
use fancy_flow_rs.Analysis.GraphPolicy.Nesting.{fits, is_clean, inspect_value-fits}
use fancy_flow_rs.Workflow.Export.{to_json}

no_issues-append : (l m : List ImportIssue) → no_issues (l ++ m) ≡ (no_issues l && no_issues m)
no_issues-append [] m = refl
no_issues-append (i ∷ l) m = refl

no_issues-unless_within :
    (n most : ℕ) (i : ImportIssue) → no_issues (unless_within n most i) ≡ not (ltb most n)
no_issues-unless_within n most i = ground arith

module _ ⦃P : Platform⦄ (policy : GraphPolicy) where
  open P use {object}

  -- The kind is permitted, and the configuration nests within the cap with no text that is too long.
  abbrev pub is_safe_node : FlowNode → Bool
  is_safe_node node =
      permits policy (or_text node.kind "") && fits policy policy.max_depth (object node.config)

  no_issues-problem_in :
      (node : FlowNode)
      → no_issues (problem_in node (inspect_value policy (object node.config) 1))
        ≡ fits policy policy.max_depth (object node.config)
  no_issues-problem_in node =
      let (r, ends, good) = inspect_value-fits policy (object node.config) 1 in
      let levels : levels_left policy 1 ≡ policy.max_depth = omega arith in
      rw ends (by_result r) ∙ good ∙ ap (λ n. fits policy n (object node.config)) levels
    where
      by_result : (r : Option String) → no_issues (problem_in node (some r)) ≡ is_clean r
      by_result none = refl
      by_result (some problem) = refl

  no_issues-inspect_node :
      (node : FlowNode) → no_issues (inspect_node policy node) ≡ is_safe_node node
  unfolding inspect_node
  no_issues-inspect_node node = elim (Bool-cases (permits policy (or_text node.kind ""))) [
    | inl permitted ↦ rw permitted (no_issues-problem_in node)
    | inr refused ↦ rw refused refl
  ]

  no_issues-inspect_nodes :
      (nodes : List FlowNode) → no_issues (inspect_nodes policy nodes) ≡ all is_safe_node nodes
  unfolding inspect_nodes
  no_issues-inspect_nodes [] = refl
  no_issues-inspect_nodes (node ∷ nodes) =
      rw
        (
          no_issues-append (inspect_node policy node) (inspect_nodes policy nodes),
          no_issues-inspect_node node,
          no_issues-inspect_nodes nodes,
        )
        refl

  abbrev pub is_safe_graph : FlowGraph → Bool
  is_safe_graph graph =
      not (ltb policy.max_nodes (length graph.nodes))
      && (not (ltb policy.max_edges (length graph.edges))
          && (all is_safe_node graph.nodes
              && not (ltb policy.max_bytes (byte_len (to_json graph none)))))

  accepts-safe : (graph : FlowGraph) → accepts policy graph ≡ is_safe_graph graph
  unfolding accepts inspect
  accepts-safe graph = simp (no_issues-append, no_issues-unless_within, no_issues-inspect_nodes)

  refused_for-safe :
      (issues : List ImportIssue) → (refused_for issues ≡ safe) ↔ (no_issues issues ≡ true)
  refused_for-safe [] = (λ h. refl, λ h. refl)
  refused_for-safe (i ∷ l) = (λ h. absurd (cc), λ h. absurd (cc))

  -- A policy accepts a graph exactly where the graph has no more nodes and edges than it permits, each
  -- node has a permitted kind and a configuration that nests within the cap and has no value that is a
  -- text that is too long, and the serialized graph is no longer than it permits; and the assertion
  -- succeeds on the graphs that are accepted, and on no other. The lengths of ids, labels, kinds and
  -- handles and of the keys of a configuration are not limited one by one.
  pub accepts-is_safe_graph :
      (graph : FlowGraph)
      → (accepts policy graph ≡ is_safe_graph graph)
        × ((assert_safe policy graph ≡ safe) ↔ (accepts policy graph ≡ true))
  unfolding accepts assert_safe
  accepts-is_safe_graph graph = (accepts-safe graph, refused_for-safe (inspect policy graph))
