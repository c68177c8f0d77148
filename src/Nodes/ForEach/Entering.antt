-- ===== src/Nodes/ForEach/Entering.antt =====
-- What a node of the lane is given in the run for an item.
use fancy_flow_rs.Prelude.{
  ℕ, ◌+◌, List, [], ◌∷◌, String, Bool, true, false, Option, some, none, if◌then◌else◌, ◌==◌, ◌&&◌,
  ◌||◌, ◌≡◌, inl, inr, refl, ap, ◌∙◌, eq_iff, Bool-cases, any,
}
use fancy_flow_rs.Prelude.BTreeMap
use fancy_flow_rs.Prelude.BTreeMap.{BTreeMap}
use fancy_flow_rs.Platform.{Platform}
use fancy_flow_rs.Schema.{FlowEdge, FlowGraph, target_port}
use fancy_flow_rs.Registry.Catalogue.{NodeKindRegistry}
use fancy_flow_rs.Executors.{ExecutionContext}
use fancy_flow_rs.Engine.Walk.{Walk, Step, incoming}
use fancy_flow_rs.Engine.Walk.Inputs.{get-collect_inputs, last_active, or_seed, seeded}
use fancy_flow_rs.Engine.Stepping.{context_for}
use fancy_flow_rs.Nodes.ForEach.{inputs_for, item_setup, or_empty}

module _ ⦃P : Platform⦄ where
  open P use {Value, Map}

  -- Some edge into the lane reads into the port of the node.
  abbrev pub enters : List FlowEdge → String → String → Bool
  enters entries id port = any (λ e. e.target == id && target_port e == port) entries

  seeded-or_empty : (o : Option Map) (port : String) → P.get (or_empty o) port ≡ seeded o port
  seeded-or_empty none port = P.get-empty port
  seeded-or_empty (some m) port = refl

  -- One entry edge writes the item on its port and nothing else.
  seeded-insert :
      (e : FlowEdge) (item : Value) (inputs : BTreeMap Map) (id port : String)
      → seeded
          (BTreeMap.get
            (BTreeMap.insert inputs e.target
              (P.insert (or_empty (BTreeMap.get inputs e.target)) (target_port e) item))
            id)
          port
        ≡ (if e.target == id && target_port e == port
            then some item
            else seeded (BTreeMap.get inputs id) port)
  seeded-insert e item inputs id port =
      let m = P.insert (or_empty (BTreeMap.get inputs e.target)) (target_port e) item in
      ap (λ o. seeded o port) (BTreeMap.get-insert inputs e.target m id)
      ∙ (elim (Bool-cases (e.target == id)) [
        | inr other ↦ rw other refl
        | inl here ↦ rw here (
            P.get-insert (or_empty (BTreeMap.get inputs e.target)) (target_port e) item port
            ∙ ap (λ o. if target_port e == port then some item else o)
                (seeded-or_empty (BTreeMap.get inputs e.target) port
                  ∙ ap (λ i. seeded (BTreeMap.get inputs i) port) ((eq_iff e.target id).0 here)))
      ])

  if_or :
      (a b : Bool) (v : Value) (o : Option Value)
      → (if b then some v else if a then some v else o) ≡ (if a || b then some v else o)
  if_or true true v o = refl
  if_or true false v o = refl
  if_or false b v o = refl

  seeded-inputs_for :
      (entries : List FlowEdge) (item : Value) (inputs : BTreeMap Map) (id port : String)
      → seeded (BTreeMap.get (inputs_for entries item inputs) id) port
        ≡ (if enters entries id port then some item else seeded (BTreeMap.get inputs id) port)
  unfolding inputs_for
  seeded-inputs_for [] item inputs id port = refl
  seeded-inputs_for (e ∷ entries) item inputs id port =
      let m = P.insert (or_empty (BTreeMap.get inputs e.target)) (target_port e) item in
      seeded-inputs_for entries item (BTreeMap.insert inputs e.target m) id port
      ∙ ap (λ o. if enters entries id port then some item else o)
          (seeded-insert e item inputs id port)
      ∙ if_or (e.target == id && target_port e == port) (enters entries id port) item
          (seeded (BTreeMap.get inputs id) port)

  -- A node that the run for an item executes is given, on each of its ports, the value of its last
  -- active edge inside the lane into the port; without one the item, where some edge into the lane reads
  -- into the port; and else nothing, whatever the loop itself was given. It runs one level deeper than
  -- the loop, in the graph of the lane.
  pub get-context_for-item_setup :
      (ctx : ExecutionContext) (builtin : NodeKindRegistry) (lane_graph : FlowGraph)
      (entries : List FlowEdge) (index : ℕ) (item : Value) (walk : Walk) (step : Step)
      (port : String)
      → let below = context_for (item_setup ctx builtin lane_graph entries index item) walk step in
        (P.get below.inputs port
          ≡ or_seed
              (last_active walk.port_values port (incoming lane_graph.edges step.node.id))
              (if enters entries step.node.id port then some item else none))
        × (below.depth ≡ ctx.depth + 1)
        × (below.graph ≡ lane_graph)
  unfolding context_for item_setup
  get-context_for-item_setup ctx builtin lane_graph entries index item walk step port =
      let setup = item_setup ctx builtin lane_graph entries index item in
      let inbound = incoming lane_graph.edges step.node.id in
      (
        get-collect_inputs setup step.node inbound walk port
            ∙ ap (or_seed (last_active walk.port_values port inbound))
                (seeded-inputs_for entries item [] step.node.id port),
        refl,
        refl,
      )
