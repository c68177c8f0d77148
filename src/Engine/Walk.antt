-- ===== src/Engine/Walk.antt =====
-- engine/walk.rs: the walk as a state machine. `Setup` holds the references of the struct `Walk`,
-- which do not change, and `Walk` its state.
pub mod Incoming
pub mod Inputs
pub mod Started
pub mod Publishing
use fancy_flow_rs.Prelude.{
  ℕ, ℤ, List, [], ◌∷◌, ◌++◌, String, Bool, true, false, Option, some, none, if◌then◌else◌, ◌==◌,
  ◌&&◌, ◌<>◌,
}
use fancy_flow_rs.Prelude.BTreeMap
use fancy_flow_rs.Prelude.BTreeMap.{BTreeMap}
use fancy_flow_rs.Platform.{Platform}
use fancy_flow_rs.Schema.{FlowNode, FlowEdge, FlowGraph, source_port, target_port}
use fancy_flow_rs.Registry.Catalogue.{NodeKindRegistry}
use fancy_flow_rs.Registry.Catalogue
use fancy_flow_rs.Registry.KindId.{matches, dedup_push}
use fancy_flow_rs.Runtime.Events.{RunEvent, done, run_start, node_status, node_output, run_error}
use fancy_flow_rs.Runtime.Options.{RunOptions}
use fancy_flow_rs.Executors.{SharedExecutor, ExecutorRegistry}
use fancy_flow_rs.Engine.Topo.{TopoResult, out_of_fuel, cycle, ordered, topo_sort}
use fancy_flow_rs.Engine.Activation.{Activation, activated_ports, and_then, value_or}
use fancy_flow_rs.Engine.Undelivered.{
  PublishedPorts, KindLookup, undelivered_edge_warnings, index_nodes,
}

pub data State : Type 0 where
  walking awaiting_outcome finished : State

abbrev pub is_finished : State → Bool
is_finished finished = true
is_finished _ = false

abbrev pub is_awaiting : State → Bool
is_awaiting awaiting_outcome = true
is_awaiting _ = false

abbrev pub is_nil {ℓ} : {A : Type ℓ} → List A → Bool
is_nil [] = true
is_nil (x ∷ l) = false

unfoldable pub port_key : String → String → String
port_key node_id port_id = node_id <> ":" <> port_id

unfoldable pub edge_key : FlowEdge → String
unfolding port_key source_port
edge_key edge = port_key edge.source (source_port edge)

abbrev pub is_text : Option String → String → Bool
is_text (some s) t = s == t
is_text none t = false

abbrev add_port : List String → Option String → List String
add_port l (some port) = dedup_push l port
add_port l none = l

abbrev pub cycle_message : String
cycle_message = "Cycle detected in flow graph — aborting."

unfoldable pub incoming : List FlowEdge → String → List FlowEdge
incoming [] node_id = []
incoming (edge ∷ edges) node_id =
    let rest = incoming edges node_id in if edge.target == node_id then edge ∷ rest else rest

module _ ⦃P : Platform⦄ where
  open P use {Value, Map, World, insert, empty}

  pub record Setup : Type 0 where
    pub graph : FlowGraph
    pub executors : ExecutorRegistry
    pub kinds : Option NodeKindRegistry
    pub options : RunOptions
    pub kind_lookup : KindLookup

  pub record Walk : Type 0 where
    pub order : List ℕ
    pub cursor : ℕ
    pub state : State
    pub port_values : BTreeMap Value
    pub outputs : BTreeMap Value
    pub events : List RunEvent
    pub errors : List String
    pub cancelled : Option String
    pub started_at : Option ℤ

  -- The node to execute, its place in `graph.nodes` and its executor.
  pub record Step : Type 0 where
    pub index : ℕ
    pub node : FlowNode
    pub executor : SharedExecutor

  abbrev pub emit : Walk → RunEvent → Walk
  emit walk event = record walk { events = walk.events ++ event ∷ [] }

  abbrev fresh_walk : Setup → World → Walk
  fresh_walk s w = record {
    order = [];
    cursor = 0;
    state = walking;
    port_values = [];
    outputs = [];
    events = [];
    errors = [];
    cancelled = none;
    started_at = elim s.options.timeout [ some t ↦ some (t.clock w) | none ↦ none ];
  }

  start_from : Walk → TopoResult → Option Walk
  start_from walk out_of_fuel = none
  start_from walk (ordered order) = some (emit (record walk { order = order }) run_start)
  start_from walk cycle = some (record (emit walk (run_error cycle_message)) {
    errors = cycle_message ∷ [];
    state = finished;
  })

  -- `none` where the sort does not end.
  unfoldable pub start : Setup → World → Option Walk
  unfolding start_from topo_sort
  start s w = start_from (fresh_walk s w) (topo_sort s.graph)

  -- The per-port value where the key is present, and the shared value elsewhere.
  abbrev pub carried : Activation → String → Value
  carried a port_id = elim a.per_port [
    | some per_port ↦ value_or (P.get per_port port_id) a.value
    | none ↦ a.value
  ]

  unfoldable pub publish_port : Activation → String → String → Walk → Walk
  unfolding BTreeMap.insert port_key
  publish_port a node_id port_id walk =
      let v = carried a port_id in
      record walk {
        port_values = BTreeMap.insert walk.port_values (port_key node_id port_id) v;
        events = walk.events ++ node_output node_id port_id v ∷ [];
      }

  unfoldable pub publish_ports : Activation → String → List String → Walk → Walk
  unfolding publish_port
  publish_ports a node_id [] walk = walk
  publish_ports a node_id (port_id ∷ ports) walk =
      publish_ports a node_id ports (publish_port a node_id port_id walk)

  unfoldable pub publish : Setup → FlowNode → Value → Bool → Walk → Walk
  unfolding publish_ports activated_ports BTreeMap.insert
  publish s node result resumed walk =
      let a = activated_ports s.kinds node result in
      emit
        (publish_ports a node.id a.ports
          (record walk { outputs = BTreeMap.insert walk.outputs node.id result }))
        (node_status node.id done (if resumed then some "resumed" else none))

  -- The ports of one node in the order of their first events.
  unfoldable pub output_ports : String → List String → List RunEvent → List String
  unfolding dedup_push
  output_ports node_id available [] = available
  output_ports node_id available (event ∷ events) =
      output_ports node_id
        (if event.kind == "node-output" && is_text event.node_id node_id
          then add_port available event.port_id
          else available)
        events

  -- The walk's answers to the undelivered-edge rule.
  unfoldable pub walk_ports : Walk → PublishedPorts
  unfolding BTreeMap.contains_key port_key output_ports
  walk_ports walk = record {
    completed = λ node_id. BTreeMap.contains_key walk.outputs node_id;
    published = λ node_id port. BTreeMap.contains_key walk.port_values (port_key node_id port);
    in_publication_order = λ node_id. output_ports node_id [] walk.events;
  }

  unfoldable pub warn_undelivered : Setup → FlowNode → List FlowEdge → Walk → Walk
  unfolding undelivered_edge_warnings walk_ports index_nodes
  warn_undelivered s target inbound walk = record walk {
    events =
        walk.events
        ++ undelivered_edge_warnings target inbound (walk_ports walk) (index_nodes [] s.graph.nodes)
            s.kind_lookup;
  }

  abbrev pub is_active : Walk → FlowEdge → Bool
  is_active walk edge = BTreeMap.contains_key walk.port_values (edge_key edge)

  abbrev seed : Option Map → Map
  seed (some m) = m
  seed none = empty

  unfoldable pub collect_edges : BTreeMap Value → List FlowEdge → Map → Map
  unfolding BTreeMap.get edge_key target_port
  collect_edges port_values [] inputs = inputs
  collect_edges port_values (edge ∷ edges) inputs =
      collect_edges port_values edges (elim (BTreeMap.get port_values (edge_key edge)) [
        | some v ↦ insert inputs (target_port edge) v
        | none ↦ inputs
      ])

  unfoldable pub collect_inputs : Setup → FlowNode → List FlowEdge → Walk → Map
  unfolding collect_edges BTreeMap.get
  collect_inputs s node inbound walk =
      collect_edges walk.port_values inbound (seed (BTreeMap.get s.options.initial_inputs node.id))

  abbrev layout_label : String → Option String
  layout_label category =
      if category == "layout"
      then some "lane"
      else if category == "annotation"
      then some "annotation"
      else none

  unfoldable pub visual_only : Setup → FlowNode → Option String
  unfolding matches Catalogue.get
  visual_only s node = and_then node.kind λ kind_name.
      if matches kind_name "note"
      then some "annotation"
      else and_then s.kinds
          λ kinds. and_then (Catalogue.get kinds kind_name) λ kind. layout_label kind.category
