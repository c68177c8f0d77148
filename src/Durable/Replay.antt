-- ===== src/Durable/Replay.antt =====
-- durable/replay.rs: one node run through the engine, every other node fenced.
pub mod Fenced
pub mod Returning
use fancy_flow_rs.Prelude.{
  List, [], ◌∷◌, ◌++◌, String, Bool, false, Option, some, none, if◌then◌else◌, ◌==◌,
}
use fancy_flow_rs.Prelude.BTreeMap
use fancy_flow_rs.Prelude.BTreeMap.{BTreeMap}
use fancy_flow_rs.Platform.{Platform}
use fancy_flow_rs.Schema.{FlowNode, FlowGraph}
use fancy_flow_rs.Registry.Catalogue.{NodeKindRegistry}
use fancy_flow_rs.Runtime.Events.{RunEvent}
use fancy_flow_rs.Runtime.Options.{RunOptions, RunResult}
use fancy_flow_rs.Executors.{ExecutorRegistry, fence, bind_node}
use fancy_flow_rs.Engine.Walk.{Setup}
use fancy_flow_rs.Engine.Stepping.{Execute, Finish, finish_ok, finish_cancelled, run}

abbrev pub boundary : String
boundary = "fancy-flow:node-boundary"

unfoldable pub is_boundary : Option String → Bool
is_boundary (some error) = error == boundary
is_boundary none = false

-- `Some(node.id.as_str()) == node_id`
abbrev pub is_target : Option String → String → Bool
is_target (some target) id = target == id
is_target none id = false

module _ ⦃P : Platform⦄ where
  open P use {Value, World}

  pub record ReplayResult : Type 0 where
    pub result : RunResult
    pub ports : BTreeMap (List String)

  -- Every node but the target is bound to the fence.
  unfoldable pub fence_off : List FlowNode → Option String → ExecutorRegistry → ExecutorRegistry
  unfolding bind_node
  fence_off [] target fork = fork
  fence_off (node ∷ nodes) target fork =
      fence_off nodes target
        (if is_target target node.id then fork else bind_node fork node.id fence)

  unfoldable pub fenced_ids : List FlowNode → Option String → List String
  fenced_ids [] target = []
  fenced_ids (node ∷ nodes) target =
      let rest = fenced_ids nodes target in
      if is_target target node.id then rest else node.id ∷ rest

  abbrev or_nil : Option (List String) → List String
  or_nil (some ports) = ports
  or_nil none = []

  abbrev push_output :
      BTreeMap (List String) → Option String → Option String → BTreeMap (List String)
  push_output ports (some id) (some port) =
      BTreeMap.insert ports id (or_nil (BTreeMap.get ports id) ++ port ∷ [])
  push_output ports (some id) none = ports
  push_output ports none port = ports

  -- The ports of each node, off the `node-output` events.
  unfoldable pub output_events : BTreeMap (List String) → List RunEvent → BTreeMap (List String)
  unfolding BTreeMap.insert BTreeMap.get
  output_events ports [] = ports
  output_events ports (event ∷ events) =
      output_events
        (if event.kind == "node-output"
          then push_output ports event.node_id event.port_id
          else ports)
        events

  -- What a fence that ran has left is dropped.
  unfoldable pub drop_fenced : BTreeMap Value → List String → ReplayResult → ReplayResult
  unfolding BTreeMap.contains_key BTreeMap.remove
  drop_fenced resumed [] r = r
  drop_fenced resumed (id ∷ ids) r = drop_fenced resumed ids (
      if BTreeMap.contains_key resumed id then r else record {
        result = record (r.result) { outputs = BTreeMap.remove r.result.outputs id };
        ports = BTreeMap.remove r.ports id;
      })

  -- A replay, or the reason of a host signal that cancelled it.
  pub data Replayed : Type 0 where
    replayed : ReplayResult → Replayed
    cancelled : String → Replayed

  conclude : List FlowNode → Option String → RunOptions → Finish → Replayed
  unfolding output_events drop_fenced fenced_ids
  conclude nodes target options (finish_cancelled reason) = cancelled reason
  conclude nodes target options (finish_ok result) = replayed (
      drop_fenced options.resume_outputs (fenced_ids nodes target)
        (record { result = result; ports = output_events [] result.events }))

  abbrev replay_setup :
      FlowGraph
      → Option String
      → ExecutorRegistry
      → Option NodeKindRegistry
      → RunOptions
      → NodeKindRegistry
      → Setup
  replay_setup graph target executors kinds options builtin = record {
    graph = graph;
    executors = fence_off graph.nodes target executors;
    kinds = kinds;
    options = options;
    kind_lookup = record { runner = kinds; executors = executors.kinds; builtin = builtin };
  }

  abbrev conclude_run :
      List FlowNode
      → Option String
      → RunOptions
      → Option (Finish × World)
      → Option (Replayed × World)
  conclude_run nodes target options none = none
  conclude_run nodes target options (some (end, w)) = some (conclude nodes target options end, w)

  -- `none` only where the engine's sort does not end.
  unfoldable pub replay_up_to :
      Execute
      → FlowGraph
      → Option String
      → ExecutorRegistry
      → Option NodeKindRegistry
      → RunOptions
      → NodeKindRegistry
      → World
      → Option (Replayed × World)
  unfolding run fence_off conclude
  replay_up_to call graph target executors kinds options builtin w =
      conclude_run graph.nodes target options
        (run call (replay_setup graph target executors kinds options builtin) w)
