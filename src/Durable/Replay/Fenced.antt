-- ===== src/Durable/Replay/Fenced.antt =====
-- A replay asks the host's executors about its target only.
use fancy_flow_rs.Prelude.{
  List, [], ◌∷◌, String, true, false, Option, some, if◌then◌else◌, ◌≡◌, inl, inr, refl, sym, ap,
  ◌∙◌, arith, eq_iff, Bool-cases,
}
use mathlib.Core.List.{Memᴰ}
use fancy_flow_rs.Prelude.BTreeMap
use fancy_flow_rs.Prelude.BTreeMap.{BTreeMap, get-insert}
use fancy_flow_rs.Platform.{Platform}
use fancy_flow_rs.Schema.{FlowNode, FlowGraph}
use fancy_flow_rs.Registry.Catalogue.{NodeKindRegistry}
use fancy_flow_rs.Runtime.Options.{RunOptions}
use fancy_flow_rs.Executors.{
  SharedExecutor, host, fence, ExecutorRegistry, ExecutionContext, bind_node, resolve_for,
}
use fancy_flow_rs.Engine.Walk.{Setup, Walk, Step}
use fancy_flow_rs.Engine.Stepping.{Execute, execute, context_for}
use fancy_flow_rs.Engine.Stepping.Entry.{IsEntered}
use fancy_flow_rs.Engine.Stepping.Congruence.{current-mem, run-alike}
use fancy_flow_rs.Durable.Replay.{is_target, fence_off, replay_up_to, replay_setup, conclude_run}

module _ ⦃P : Platform⦄ (target : Option String) where
  open P use {World, Handle}

  fence_off-keeps :
      (nodes : List FlowNode) (registry : ExecutorRegistry) (id : String)
      → BTreeMap.get registry.by_node id ≡ some fence
      → BTreeMap.get (fence_off nodes target registry).by_node id ≡ some fence
  unfolding fence_off bind_node
  fence_off-keeps [] registry id h = h
  fence_off-keeps (node ∷ nodes) registry id h =
      fence_off-keeps nodes
        (if is_target target node.id then registry else bind_node registry node.id fence) id
        (ground (arith, get-insert registry.by_node node.id fence id, h))

  -- Every node but the target is bound to the fence.
  fence_off-other :
      (nodes : List FlowNode) (registry : ExecutorRegistry) (node : FlowNode)
      → Memᴰ node nodes
      → is_target target node.id ≡ false
      → BTreeMap.get (fence_off nodes target registry).by_node node.id ≡ some fence
  unfolding fence_off bind_node
  fence_off-other [] registry node m h = elim m [ ]
  fence_off-other (first ∷ nodes) registry node (Memᴰ.head e) h =
      let other : is_target target first.id ≡ false = rw (← e) h in
      fence_off-keeps nodes
        (if is_target target first.id then registry else bind_node registry first.id fence) node.id
        (ground (
          arith,
          other,
          e,
          get-insert registry.by_node first.id fence node.id,
          eq_iff first.id node.id,
        ))
  fence_off-other (first ∷ nodes) registry node (Memᴰ.tail m) h =
      fence_off-other nodes
        (if is_target target first.id then registry else bind_node registry first.id fence) node m h

  module _ (s : Setup) (registry : ExecutorRegistry)
      (fenced : s.executors ≡ fence_off s.graph.nodes target registry) where
    same_executor : (a b : SharedExecutor) → some a ≡ some b → b ≡ a
    same_executor a b e = cc

    -- A step at any other node has the fence for its executor.
    entered-fence :
        (walk : Walk) (step : Step)
        → IsEntered s walk step
        → is_target target step.node.id ≡ false
        → step.executor ≡ fence
    unfolding resolve_for
    entered-fence walk step (reached, bound) other =
        let at =
          fence_off-other s.graph.nodes registry step.node
            (current-mem s walk step.index step.node reached.0) other in
        let here : BTreeMap.get s.executors.by_node step.node.id ≡ some fence = rw fenced at in
        let found : resolve_for s.executors step.node ≡ some fence = rw (here, resolve_for) refl in
        same_executor fence step.executor (sym found ∙ bound)

    module _ (call call' : Execute)
        (agree : (h : Handle) (ctx : ExecutionContext) (w : World)
          → is_target target ctx.node.id ≡ true
          → call h ctx w ≡ call' h ctx w) where
      execute-agree :
          (executor : SharedExecutor) (ctx : ExecutionContext) (w : World)
          → is_target target ctx.node.id ≡ true
          → execute call executor ctx w ≡ execute call' executor ctx w
      unfolding execute
      execute-agree (host h) ctx w own = agree h ctx w own
      execute-agree fence ctx w own = refl

      execute-fence :
          (executor : SharedExecutor) (ctx : ExecutionContext) (w : World)
          → executor ≡ fence
          → execute call executor ctx w ≡ execute call' executor ctx w
      unfolding execute
      execute-fence executor ctx w e = rw e refl

      execute-step :
          (walk : Walk) (step : Step) (w : World)
          → IsEntered s walk step
          → execute call step.executor (context_for s walk step) w
            ≡ execute call' step.executor (context_for s walk step) w
      unfolding context_for
      execute-step walk step w entered = elim (Bool-cases (is_target target step.node.id)) [
        | inl own ↦ execute-agree step.executor (context_for s walk step) w own
        | inr other ↦
            execute-fence step.executor (context_for s walk step) w
              (entered-fence walk step entered other)
      ]

  -- Two hosts whose executors answer alike wherever they are asked about the target give one and the
  -- same replay, the state of the host included, however they answer about other nodes.
  pub replay_up_to-fenced :
      (call call' : Execute) (graph : FlowGraph) (executors : ExecutorRegistry)
      (kinds : Option NodeKindRegistry) (options : RunOptions) (builtin : NodeKindRegistry)
      (w : World)
      → ((h : Handle) (ctx : ExecutionContext) (w' : World)
          → is_target target ctx.node.id ≡ true
          → call h ctx w' ≡ call' h ctx w')
      → replay_up_to call graph target executors kinds options builtin w
        ≡ replay_up_to call' graph target executors kinds options builtin w
  unfolding replay_up_to
  replay_up_to-fenced call call' graph executors kinds options builtin w agree =
      let s = replay_setup graph target executors kinds options builtin in
      ap (conclude_run graph.nodes target options)
        (run-alike s call call' (execute-step s executors refl call call' agree) w)
