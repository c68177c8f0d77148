-- ===== src/Durable/Frontier.antt =====
-- durable/frontier.rs: which nodes can run now, given what has settled.
pub mod Ends
pub mod Ready
pub mod Probing
pub mod Runnable
use fancy_flow_rs.Prelude.{
  ℕ, zero, suc, ◌+◌, ◌-◌, ◌*◌, ◌≤◌, ◌<◌, ◌^◌, ℤ, List, [], ◌∷◌, ◌++◌, map, append-nil, append_assoc,
  String, Bool, true, false, not, Option, some, none, if◌then◌else◌, ◌==◌, ◌&&◌, ◌||◌, ◌≡◌, ◌≢◌,
  ◌↔◌, ◌⊎◌, inl, inr, refl, sym, ap, subst, ◌∙◌, arith, eq_iff, eq_refl, ltb, leb, nat_beq, tests,
  ltb→lt, leb→le, Option-cases, Bool-cases, ==-cases, ne→==-false, length, get_elem?, take, any,
  all, length-append, length-take-le, min, max, ◌<>◌, ltb_ℤ, saturating_sub, display,
}
use fancy_flow_rs.Prelude.BTreeMap
use fancy_flow_rs.Prelude.BTreeMap.{BTreeMap}
use fancy_flow_rs.Platform.{Platform}
use fancy_flow_rs.Schema.{FlowNode, FlowEdge, FlowGraph, source_port}
use fancy_flow_rs.Registry.KindId.{matches, contains}
use fancy_flow_rs.Engine.Walk.{incoming, is_nil}
use fancy_flow_rs.Durable.State.{
  NodeState, RunState, is_settled, is_held, NodeRunStatus, claimed, completed, skipped, failed,
  paused,
}

-- The variables of the loop. `ready` is also the source's set `ready_ids`.
pub record Cascade : Type 0 where
  pub settled : BTreeMap (List String)
  pub ready : List String
  pub skipped : List String
  pub changed : Bool

pub record FrontierResult : Type 0 where
  pub ready : List String
  pub skipped : List String

-- What the loop over a node's inbound edges finds: a source that is not settled, or whether an edge
-- is active.
pub data Probe : Type 0 where
  blocked : Probe
  reached : Bool → Probe

unfoldable pub probe : BTreeMap (List String) → Bool → List FlowEdge → Probe
unfolding BTreeMap.get source_port contains
probe settled active [] = reached active
probe settled active (edge ∷ edges) = elim (BTreeMap.get settled edge.source) [
  | none ↦ blocked
  | some ports ↦ probe settled (active || contains ports (source_port edge)) edges
]

abbrev note_kind : Option String → Bool
note_kind (some kind) = matches kind "note"
note_kind none = false

module _ ⦃P : Platform⦄ where
  -- The settled rows, with the ports that they lit.
  unfoldable pub settled_rows : RunState → BTreeMap (List String)
  settled_rows [] = []
  settled_rows ((node_id, entry) ∷ state) =
      let rest = settled_rows state in
      elim entry.status [
        | completed ↦ (node_id, entry.ports) ∷ rest
        | skipped ↦ (node_id, []) ∷ rest
        | failed ↦ (node_id, []) ∷ rest
        | claimed ↦ rest
        | paused ↦ rest
      ]

  unfoldable pub held_rows : RunState → List String
  unfolding is_held
  held_rows [] = []
  held_rows ((node_id, entry) ∷ state) =
      let rest = held_rows state in if is_held entry.status then node_id ∷ rest else rest

  unfoldable pub is_note : FlowNode → Bool
  unfolding matches
  is_note node = note_kind node.kind

  unfoldable pub settle_skip : String → Cascade → Cascade
  unfolding BTreeMap.insert
  settle_skip node_id c = record c {
    settled = BTreeMap.insert c.settled node_id [];
    skipped = c.skipped ++ node_id ∷ [];
    changed = true;
  }

  unfoldable pub decide : FlowNode → List FlowEdge → Probe → Cascade → Cascade
  unfolding settle_skip is_note
  decide node inbound blocked c = c
  decide node inbound (reached active) c =
      if not (is_nil inbound) && not active
      then settle_skip node.id c
      else if is_note node
      then settle_skip node.id c
      else record c { ready = c.ready ++ node.id ∷ [] }

  unfoldable pub decided : List String → Cascade → String → Bool
  unfolding BTreeMap.contains_key contains
  decided held c node_id =
      BTreeMap.contains_key c.settled node_id || contains held node_id || contains c.ready node_id

  unfoldable pub visit : List FlowEdge → List String → FlowNode → Cascade → Cascade
  unfolding decided decide probe incoming
  visit edges held node c =
      if decided held c node.id
      then c
      else decide node (incoming edges node.id) (probe c.settled false (incoming edges node.id)) c

  -- The `for` over the nodes.
  unfoldable pub pass : List FlowEdge → List String → List FlowNode → Cascade → Cascade
  unfolding visit
  pass edges held [] c = c
  pass edges held (node ∷ nodes) c = pass edges held nodes (visit edges held node c)

  -- The `while changed`.
  unfoldable pub cascade : ℕ → FlowGraph → List String → Cascade → Cascade
  unfolding pass
  cascade zero graph held c = c
  cascade (suc fuel) graph held c =
      let next =
        cascade fuel graph held
          (pass graph.edges held graph.nodes (record c { changed = false })) in
      if c.changed then next else c

  unfoldable pub start_cascade : RunState → Cascade
  unfolding settled_rows
  start_cascade state = record {
    settled = settled_rows state;
    ready = [];
    skipped = [];
    changed = true;
  }

  -- Each pass but the last settles a node, so one pass for each node and one more are enough
  -- (`Durable.Frontier.Ends`).
  unfoldable pub final_cascade : FlowGraph → RunState → Cascade
  unfolding cascade start_cascade held_rows
  final_cascade graph state =
      cascade (suc (length graph.nodes)) graph (held_rows state) (start_cascade state)

  unfoldable pub compute : FlowGraph → RunState → FrontierResult
  unfolding final_cascade
  compute graph state =
      let c = final_cascade graph state in record { ready = c.ready; skipped = c.skipped }

  abbrev pub row_settled : Option NodeState → Bool
  row_settled (some entry) = is_settled entry.status
  row_settled none = false

  unfoldable pub is_complete : FlowGraph → RunState → Bool
  unfolding BTreeMap.get is_settled
  is_complete graph state = all (λ node. row_settled (BTreeMap.get state node.id)) graph.nodes

  unfoldable pub has_work_in_flight : RunState → Bool
  unfolding is_held
  has_work_in_flight state = any (λ entry. is_held entry.1.status) state
