-- ===== src/Durable/Replay/Returning.antt =====
-- A replay returns.
use fancy_flow_rs.Prelude.{[], String, Option, some, ◌≡◌, ap, length}
use fancy_flow_rs.Platform.{Platform}
use fancy_flow_rs.Schema.{FlowGraph}
use fancy_flow_rs.Registry.KindId.{dedup_extend}
use fancy_flow_rs.Registry.Catalogue.{NodeKindRegistry}
use fancy_flow_rs.Runtime.Options.{RunOptions}
use fancy_flow_rs.Executors.{ExecutorRegistry}
use fancy_flow_rs.Engine.Topo.{node_ids}
use fancy_flow_rs.Engine.Stepping.{Execute}
use fancy_flow_rs.Engine.Stepping.Total.{run_returns}
use fancy_flow_rs.Durable.Replay.{Replayed, replay_up_to, replay_setup, conclude_run}

module _ ⦃P : Platform⦄ where
  open P use {World}

  pub replay_up_to-returns :
      (call : Execute) (graph : FlowGraph) (target : Option String) (executors : ExecutorRegistry)
      (kinds : Option NodeKindRegistry) (options : RunOptions) (builtin : NodeKindRegistry)
      (w : World)
      → length (dedup_extend [] (node_ids graph)) ≡ length (node_ids graph)
      → (r : Replayed × World) × (replay_up_to call graph target executors kinds options builtin w
          ≡ some r)
  unfolding replay_up_to
  replay_up_to-returns call graph target executors kinds options builtin w unique =
      let (end, e) =
        run_returns call (replay_setup graph target executors kinds options builtin) w unique in
      (_, ap (conclude_run graph.nodes target options) e)
