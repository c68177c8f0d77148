-- ===== src/Capabilities.antt =====
-- capabilities.rs: what a host gives for workflows and routes.
use fancy_flow_rs.Prelude.{List, [], ◌∷◌, String, Option, some, none, ◌<>◌}
use fancy_flow_rs.Prelude.BTreeMap
use fancy_flow_rs.Prelude.BTreeMap.{BTreeMap}
use fancy_flow_rs.Platform.{Platform}
use fancy_flow_rs.Schema.{FlowGraph}
use fancy_flow_rs.Schema.Json.{list_of, strings}

-- `FirstRouteClient`
unfoldable pub choose_first_route : String → List String → Option String
choose_first_route input [] = none
choose_first_route input (route ∷ routes) = some route

unfoldable pub llm_unavailable_message : String → String
llm_unavailable_message node_id =
    "Node " <> node_id
    <> " needs an LlmClient and none is configured. Core declares the contract and never imports a provider; wire one through ExecutorDeps."

module _ ⦃P : Platform⦄ where
  open P use {Value}

  -- `StaticWorkflowResolver`
  abbrev pub StaticWorkflowResolver : Type 0
  StaticWorkflowResolver = BTreeMap FlowGraph

  unfoldable pub with_workflow :
      StaticWorkflowResolver → String → FlowGraph → StaticWorkflowResolver
  unfolding BTreeMap.insert
  with_workflow entries reference graph = BTreeMap.insert entries reference graph

  unfoldable pub resolve_static : StaticWorkflowResolver → String → Option FlowGraph
  unfolding BTreeMap.get
  resolve_static entries reference = BTreeMap.get entries reference

  abbrev all_strings : Option (List Value) → List String
  all_strings (some items) = strings items
  all_strings none = []

  unfoldable pub declared_routes : Option Value → List String
  declared_routes routes = all_strings (list_of routes)
