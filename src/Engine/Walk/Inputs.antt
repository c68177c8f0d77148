-- ===== src/Engine/Walk/Inputs.antt =====
-- What a node is given.
use fancy_flow_rs.Prelude.{
  List, [], ◌∷◌, String, Option, some, none, if◌then◌else◌, ◌==◌, ◌≡◌, inl, inr, refl, ap, ◌∙◌,
  arith, Option-cases,
}
use fancy_flow_rs.Prelude.BTreeMap
use fancy_flow_rs.Prelude.BTreeMap.{BTreeMap, contains_key-get}
use fancy_flow_rs.Platform.{Platform}
use fancy_flow_rs.Schema.{FlowNode, FlowEdge, target_port}
use fancy_flow_rs.Engine.Walk.{Setup, Walk, edge_key, collect_edges, collect_inputs}

module _ ⦃P : Platform⦄ where
  open P use {Value, Map, get, insert, get-insert}

  -- The value of the last active edge that reads into a port, looked for from the end of the list.
  unfoldable pub last_active : BTreeMap Value → String → List FlowEdge → Option Value
  last_active port_values port [] = none
  last_active port_values port (edge ∷ edges) = elim (last_active port_values port edges) [
    | some v ↦ some v
    | none ↦ if target_port edge == port then BTreeMap.get port_values (edge_key edge) else none
  ]

  abbrev pub or_seed : Option Value → Option Value → Option Value
  or_seed (some v) o = some v
  or_seed none o = o

  collect_edges-last_active :
      (port_values : BTreeMap Value) (edges : List FlowEdge) (inputs : Map) (port : String)
      → get (collect_edges port_values edges inputs) port
        ≡ or_seed (last_active port_values port edges) (get inputs port)
  unfolding collect_edges last_active
  collect_edges-last_active port_values [] inputs port = refl
  collect_edges-last_active port_values (edge ∷ edges) inputs port =
      elim (Option-cases (BTreeMap.get port_values (edge_key edge))) [
        | inl dead ↦ ground (arith, collect_edges-last_active port_values edges inputs port)
        | inr (v, live) ↦ ground (
          arith,
          collect_edges-last_active port_values edges (insert inputs (target_port edge) v) port,
          get-insert inputs (target_port edge) v port,
        )
      ]

  abbrev pub seeded : Option Map → String → Option Value
  seeded (some m) port = get m port
  seeded none port = none

  -- On each port a node is given the value of the last of its inbound edges that reads into the port
  -- and is active, and where there is none the initial input. An edge whose source never
  -- published its port contributes nothing and overwrites nothing.
  pub get-collect_inputs :
      (s : Setup) (node : FlowNode) (inbound : List FlowEdge) (walk : Walk) (port : String)
      → get (collect_inputs s node inbound walk) port
        ≡ or_seed
            (last_active walk.port_values port inbound)
            (seeded (BTreeMap.get s.options.initial_inputs node.id) port)
  unfolding collect_inputs
  get-collect_inputs s node inbound walk port =
      elim (Option-cases (BTreeMap.get s.options.initial_inputs node.id)) [
        | inl none_given ↦
            rw (none_given, collect_inputs)
              (collect_edges-last_active walk.port_values inbound P.empty port
                ∙ ap (or_seed (last_active walk.port_values port inbound)) (P.get-empty port))
        | inr (m, given) ↦
            rw (given, collect_inputs) (collect_edges-last_active walk.port_values inbound m port)
      ]
