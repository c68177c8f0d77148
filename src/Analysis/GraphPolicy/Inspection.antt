-- ===== src/Analysis/GraphPolicy/Inspection.antt =====
-- security.rs: everything that a policy finds wrong with a graph.
use fancy_flow_rs.Prelude.{
  ℕ, zero, suc, ◌+◌, ◌-◌, List, [], ◌∷◌, ◌++◌, String, Bool, true, false, Option, some, none,
  if◌then◌else◌, ◌<>◌, ltb, length, decimal,
}
use fancy_flow_rs.Prelude.Scan.{byte_len}
use fancy_flow_rs.Platform.{Platform, View}
use fancy_flow_rs.Schema.{FlowNode, FlowGraph, or_text}
use fancy_flow_rs.Analysis.GraphConnectivity.{ImportIssue, issue, at_node}
use fancy_flow_rs.Analysis.GraphPolicy.{GraphPolicy, permits}
use fancy_flow_rs.Workflow.Export.{to_json}

abbrev count_message : String → ℕ → String → ℕ → String
count_message subject n unit cap =
    "Graph " <> subject <> " " <> decimal n <> unit <> "; the policy permits " <> decimal cap <> "."

abbrev pub unless_within : ℕ → ℕ → ImportIssue → List ImportIssue
unless_within n cap found = if ltb cap n then found ∷ [] else []

abbrev pub no_issues : List ImportIssue → Bool
no_issues [] = true
no_issues (i ∷ l) = false

pub data Safety : Type 0 where
  safe : Safety
  unsafe_graph : List ImportIssue → Safety

abbrev pub refused_for : List ImportIssue → Safety
refused_for [] = safe
refused_for (i ∷ l) = unsafe_graph (i ∷ l)

module _ ⦃P : Platform⦄ where
  open P use {Value, object, view, entries}

  abbrev pub values : List (String × Value) → List Value
  values [] = []
  values ((key, v) ∷ l) = v ∷ values l

  unfoldable pub children : Value → List Value
  children value = elim (view value) [
    | View.array items ↦ items
    | View.object m ↦ values (entries m)
    | View.null ↦ []
    | View.bool b ↦ []
    | View.number n ↦ []
    | View.string s ↦ []
  ]

  abbrev pub nesting_message : GraphPolicy → String
  nesting_message policy = "Config nests deeper than " <> decimal policy.max_depth <> " levels."

  abbrev pub length_message : GraphPolicy → String → String
  length_message policy s =
      "A config string is "
      <> decimal (byte_len s)
      <> " characters; the policy permits "
      <> decimal policy.max_string_length
      <> "."

  abbrev pub text_problem : GraphPolicy → View Value P.Map P.Float → Option String
  text_problem policy (View.string s) =
      if ltb policy.max_string_length (byte_len s) then some (length_message policy s) else none
  text_problem policy _ = none

  -- What is wrong with a value but for its children.
  unfoldable pub value_problem : GraphPolicy → Value → ℕ → Option String
  value_problem policy value depth =
      if ltb policy.max_depth depth
      then some (nesting_message policy)
      else text_problem policy (view value)

  -- The pushes of a loop over the children, on a stack with its top first.
  unfoldable pub push_children : List (Value × ℕ) → List Value → ℕ → List (Value × ℕ)
  push_children stack [] depth = stack
  push_children stack (v ∷ l) depth = push_children ((v, depth) ∷ stack) l depth

  -- `none` where the rounds run out.
  unfoldable pub inspect_stack : ℕ → GraphPolicy → List (Value × ℕ) → Option (Option String)
  inspect_stack fuel policy [] = some none
  inspect_stack zero policy (top ∷ stack) = none
  inspect_stack (suc fuel) policy ((value, depth) ∷ stack) =
      elim (value_problem policy value depth) [
        | some problem ↦ some (some problem)
        | none ↦ inspect_stack fuel policy (push_children stack (children value) (depth + 1))
      ]

  abbrev pub total : (Value → ℕ) → List Value → ℕ
  total f [] = 0
  total f (v ∷ l) = f v + total f l

  -- The values within so many levels, and the first level below them.
  unfoldable pub tally : ℕ → Value → ℕ
  tally zero value = 1
  tally (suc levels) value = suc (total (tally levels) (children value))

  -- The levels that the policy leaves at a depth.
  abbrev pub levels_left : GraphPolicy → ℕ → ℕ
  levels_left policy depth = suc policy.max_depth - depth

  unfoldable pub inspect_value : GraphPolicy → Value → ℕ → Option (Option String)
  unfolding inspect_stack tally
  inspect_value policy root start_depth =
      inspect_stack (tally (levels_left policy start_depth) root) policy ((root, start_depth) ∷ [])

  abbrev pub problem_in : FlowNode → Option (Option String) → List ImportIssue
  problem_in node (some (some problem)) = at_node (issue problem) node.id ∷ []
  problem_in node (some none) = []
  problem_in node none = []

  unfoldable pub inspect_node : GraphPolicy → FlowNode → List ImportIssue
  unfolding permits inspect_value
  inspect_node policy node =
      let kind = or_text node.kind "" in
      (if permits policy kind
        then []
        else at_node (issue ("Kind \"" <> kind <> "\" is not permitted.")) node.id ∷ [])
      ++ problem_in node (inspect_value policy (object node.config) 1)

  unfoldable pub inspect_nodes : GraphPolicy → List FlowNode → List ImportIssue
  unfolding inspect_node
  inspect_nodes policy [] = []
  inspect_nodes policy (node ∷ nodes) = inspect_node policy node ++ inspect_nodes policy nodes

  unfoldable pub inspect : GraphPolicy → FlowGraph → List ImportIssue
  unfolding inspect_nodes to_json
  inspect policy graph =
      unless_within (length graph.nodes) policy.max_nodes
        (issue (count_message "has" (length graph.nodes) " nodes" policy.max_nodes))
      ++ (unless_within (length graph.edges) policy.max_edges
            (issue (count_message "has" (length graph.edges) " edges" policy.max_edges))
          ++ (inspect_nodes policy graph.nodes
              ++ unless_within (byte_len (to_json graph none)) policy.max_bytes (
                  issue (
                    count_message "serializes to" (byte_len (to_json graph none)) " bytes"
                      policy.max_bytes))))

  unfoldable pub accepts : GraphPolicy → FlowGraph → Bool
  unfolding inspect
  accepts policy graph = no_issues (inspect policy graph)

  unfoldable pub assert_safe : GraphPolicy → FlowGraph → Safety
  unfolding inspect
  assert_safe policy graph = refused_for (inspect policy graph)
