-- ===== src/Registry/PortResolution.antt =====
-- registry/port_resolution.rs: every port that a node could publish on some run.
use fancy_flow_rs.Prelude.{
  List, [], ◌∷◌, map, String, Bool, true, false, Option, some, none, if◌then◌else◌, ◌==◌, ◌||◌,
}
use fancy_flow_rs.Platform.{Platform}
use fancy_flow_rs.Schema.{PortDescriptor, FlowNode, or_text}
use fancy_flow_rs.Registry.Kind.{NodeKind}
use fancy_flow_rs.Registry.KindId.{bare, dedup_push, dedup_extend}

abbrev pub port_ids : List PortDescriptor → List String
port_ids ports = map (λ p. p.id) ports

-- `kind.outputs.iter().flatten()`
abbrev pub declared_ports : Option (List PortDescriptor) → List String
declared_ports (some ports) = port_ids ports
declared_ports none = []

abbrev is_empty {ℓ} : {A : Type ℓ} → List A → Bool
is_empty [] = true
is_empty (x ∷ l) = false

-- `.filter(|port| !port.is_empty())`, then the deduplicating push
unfoldable pub push_port : List String → Option String → List String
unfolding dedup_push
push_port ports none = ports
push_port ports (some port) = if port == "" then ports else dedup_push ports port

module _ ⦃P : Platform⦄ where
  open P use {Value, Map, as_str, as_array, as_object, get, entries, is_false}

  abbrev and_then {ℓ κ} : {A : Type ℓ} {B : Type κ} → Option A → (A → Option B) → Option B
  and_then (some a) f = f a
  and_then none f = none

  unfoldable pub case_ports : List String → List (String × Value) → List String
  unfolding push_port
  case_ports ports [] = ports
  case_ports ports ((_, port) ∷ cases) = case_ports (push_port ports (as_str port)) cases

  unfoldable pub switch_case_ports : Map → List String
  unfolding case_ports dedup_push
  switch_case_ports config = elim (and_then (get config "cases") as_object) [
    | none ↦ []
    | some cases ↦
        let ports = case_ports [] (entries cases) in
        if is_empty ports then ports else dedup_push ports "default"
  ]

  -- A route is a text, or an object with a text under `port`.
  abbrev route_port : Value → Option String
  route_port route = elim (as_str route) [
    | some port ↦ some port
    | none ↦ and_then (as_object route) (λ m. and_then (get m "port") as_str)
  ]

  unfoldable pub route_ports : List String → List Value → List String
  unfolding push_port
  route_ports ports [] = ports
  route_ports ports (route ∷ routes) = route_ports (push_port ports (route_port route)) routes

  -- `config.get("fallback") != Some(&Value::Bool(false))`
  abbrev fallback_off : Map → Bool
  fallback_off config = elim (get config "fallback") [ some v ↦ is_false v | none ↦ false ]

  unfoldable pub llm_router_ports : Map → List String
  unfolding route_ports dedup_push
  llm_router_ports config = elim (and_then (get config "routes") as_array) [
    | none ↦ []
    | some routes ↦
        let ports = route_ports [] routes in
        if is_empty ports
        then ports
        else if fallback_off config
        then ports
        else dedup_push ports "fallback"
  ]

  unfoldable pub subflow_ports : Map → List String → List String
  unfolding dedup_extend dedup_push
  subflow_ports config declared =
      let mode = or_text (and_then (get config "mode") as_str) "output" in
      if mode == "stream" || mode == "both"
      then dedup_push (dedup_extend (if is_empty declared then "out" ∷ [] else []) declared)
          "stream"
      else []

  unfoldable pub derived_ports : FlowNode → NodeKind → List String
  unfolding switch_case_ports llm_router_ports subflow_ports bare
  derived_ports node kind =
      let name = bare kind.name in
      if name == "switch_case"
      then switch_case_ports node.config
      else if name == "llm_router"
      then llm_router_ports node.config
      else if name == "subflow"
      then subflow_ports node.config (declared_ports kind.outputs)
      else []

  -- The ports of a kind: those its configuration gives, or else those it declares.
  unfoldable pub kind_ports : FlowNode → NodeKind → List String
  unfolding derived_ports
  kind_ports node kind =
      let derived = derived_ports node kind in
      if is_empty derived then declared_ports kind.outputs else derived

  unfoldable pub possible_ports : FlowNode → Option NodeKind → List String
  unfolding kind_ports
  possible_ports node kind = elim node.outputs [
    | some outputs ↦ port_ids outputs
    | none ↦ elim kind [ none ↦ "out" ∷ [] | some k ↦ kind_ports node k ]
  ]
