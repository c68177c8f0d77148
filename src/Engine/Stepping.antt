-- ===== src/Engine/Stepping.antt =====
-- engine/walk.rs: `next_step`, `context_for`, `resume` and `finish`. engine/mod.rs: the synchronous
-- driver.
pub mod Frame
pub mod Progress
pub mod Total
pub mod Entry
pub mod Congruence
pub mod Abort
use fancy_flow_rs.Prelude.{
  ℕ, zero, suc, ◌+◌, ◌-◌, ℤ, ltb_ℤ, saturating_sub, display, List, [], ◌∷◌, ◌++◌, String, Bool,
  true, false, not, Option, some, none, if◌then◌else◌, ◌&&◌, ◌||◌, leb, length, get_elem?, any,
  ◌<>◌,
}
use fancy_flow_rs.Prelude.BTreeMap
use fancy_flow_rs.Platform.{Platform}
use fancy_flow_rs.Schema.{FlowNode, FlowEdge, or_text}
use fancy_flow_rs.Runtime.Events.{
  RunEvent, idle, running, error, LogLevel, node_status, log, run_end,
}
use fancy_flow_rs.Runtime.Options.{Timeout, RunResult}
use fancy_flow_rs.Executors.{
  SharedExecutor, host, fence, ExecutionContext, Outcome, value, aborted, Reply, resolve_for,
}
use fancy_flow_rs.Runtime.Port.{only}
use fancy_flow_rs.Engine.Walk.{
  walking, awaiting_outcome, finished, is_finished, is_awaiting, is_nil, Setup, Walk, Step, emit,
  incoming, publish, warn_undelivered, is_active, visual_only, collect_inputs, start,
}

abbrev pub fence_port : String
fence_port = "fancy-flow:fenced"

module _ ⦃P : Platform⦄ where
  open P use {Value, Map, World, null, Handle}

  -- One turn of the loop in `next_step`: it goes on, or it returns.
  pub data Turn : Type 0 where
    again : Walk → Turn
    return : Walk → Option Step → Turn

  abbrev stop : Walk → Turn
  stop walk = return (record walk { state = finished }) none

  abbrev advance : Walk → Walk
  advance walk = record walk { cursor = walk.cursor + 1 }

  -- The reason of a tripped host signal.
  unfoldable pub signalled : Setup → World → Option String
  signalled s w = elim s.options.signal [
    | some signal ↦ if (signal w).aborted then some (or_text (signal w).reason "aborted") else none
    | none ↦ none
  ]

  abbrev timed_out : World → Timeout → ℤ → Bool
  timed_out w t started = ltb_ℤ t.budget_ms (saturating_sub (t.clock w) started)

  abbrev charge : World → Option Timeout → Option ℤ → Walk → Walk
  charge w (some t) (some started) walk =
      if is_nil walk.errors && timed_out w t started
      then record walk {
        errors = walk.errors ++ ("Run timed out after " <> display t.budget_ms <> "ms") ∷ [];
      }
      else walk
  charge w (some t) none walk = walk
  charge w none started walk = walk

  -- A used-up budget is recorded as an error.
  unfoldable pub check_budget : Setup → World → Walk → Walk
  unfolding saturating_sub
  check_budget s w walk = charge w s.options.timeout walk.started_at walk

  skip_node : FlowNode → String → Walk → Turn
  skip_node node text walk = again (advance (emit walk (node_status node.id idle (some text))))

  abbrev no_executor : FlowNode → String
  no_executor node = "No executor registered for kind=" <> or_text node.kind ""

  -- No executor: the run stops with an error.
  fail_closed : FlowNode → Walk → Turn
  fail_closed node walk =
      let message = no_executor node in
      stop
        (record (emit (emit walk (node_status node.id error (some message)))
          (log LogLevel.error message (some node.id))) { errors = walk.errors ++ message ∷ [] })

  launch : Setup → ℕ → FlowNode → Walk → Turn
  unfolding fail_closed resolve_for
  launch s index node walk =
      let entered = emit walk (node_status node.id running none) in
      elim (resolve_for s.executors node) [
        | none ↦ fail_closed node entered
        | some executor ↦
            return (record entered { state = awaiting_outcome })
              (some (record { index = index; node = node; executor = executor }))
      ]

  -- The gate: a node with inbound edges runs if one of them is active; a visual node never does.
  gate : Setup → ℕ → FlowNode → List FlowEdge → Walk → Turn
  unfolding skip_node launch visual_only
  gate s index node inbound walk =
      if not (is_nil inbound) && not (any (is_active walk) inbound)
      then skip_node node "skipped" walk
      else elim (visual_only s node) [
        | some text ↦ skip_node node text walk
        | none ↦ launch s index node walk
      ]

  visit : Setup → ℕ → FlowNode → Walk → Turn
  unfolding publish gate warn_undelivered incoming BTreeMap.get
  visit s index node walk = elim (BTreeMap.get s.options.resume_outputs node.id) [
    | some stored ↦ again (advance (publish s node stored true walk))
    | none ↦
        let inbound = incoming s.graph.edges node.id in
        gate s index node inbound (warn_undelivered s node inbound walk)
  ]

  -- `self.graph.nodes[self.order[self.cursor]]`; an order that `start` set is in range.
  unfoldable pub current : Setup → Walk → Option (ℕ × FlowNode)
  current s walk = elim (get_elem? walk.order walk.cursor) [
    | none ↦ none
    | some index ↦ elim (get_elem? s.graph.nodes index) [
      | none ↦ none
      | some node ↦ some (index, node)
    ]
  ]

  visit_current : Setup → Walk → Turn
  unfolding current visit
  visit_current s walk =
      if is_nil walk.errors
      then elim (current s walk) [ some (index, node) ↦ visit s index node walk | none ↦ stop walk ]
      else stop walk

  unfoldable pub turn : Setup → World → Walk → Turn
  unfolding visit_current check_budget signalled
  turn s w walk =
      if is_finished walk.state || leb (length walk.order) walk.cursor
      then stop walk
      else elim (signalled s w) [
        | some reason ↦ stop (record walk { cancelled = some reason })
        | none ↦ visit_current s (check_budget s w walk)
      ]

  -- The loop. A turn that goes on moves the cursor, so the nodes left and one more turn are fuel
  -- enough (`Engine.Stepping.Progress`).
  unfoldable pub turns : ℕ → Setup → World → Walk → Option (Walk × Option Step)
  unfolding turn
  turns zero s w walk = none
  turns (suc fuel) s w walk = elim (turn s w walk) [
    | again walk' ↦ turns fuel s w walk'
    | return walk' step ↦ some (walk', step)
  ]

  -- The assertion has no value: a walk that still waits for an outcome panics.
  unfoldable pub next_step : Setup → World → Walk → Option (Walk × Option Step)
  unfolding turns
  next_step s w walk =
      if is_awaiting walk.state
      then none
      else turns (suc (length walk.order - walk.cursor)) s w walk

  unfoldable pub context_for : Setup → Walk → Step → ExecutionContext
  unfolding collect_inputs incoming
  context_for s walk step = record {
    node = step.node;
    inputs = collect_inputs s step.node (incoming s.graph.edges step.node.id) walk;
    depth = s.options.depth;
    run = s.options.run;
    graph = s.graph;
    executors = s.executors;
    kinds = s.kinds;
  }

  -- An executor's abort ends the walk, its reason recorded verbatim.
  abort_walk : FlowNode → String → Walk → Walk
  abort_walk node reason walk =
      record (emit (emit walk (node_status node.id error (some reason)))
        (log LogLevel.error reason (some node.id))) {
          errors = walk.errors ++ reason ∷ [];
          state = finished;
        }

  unfoldable pub resume : Setup → Step → List RunEvent → Outcome → Walk → Walk
  unfolding publish abort_walk
  resume s step emitted outcome walk =
      let heard = record walk { state = walking; events = walk.events ++ emitted } in
      elim outcome [
        | value v ↦ advance (publish s step.node v false heard)
        | aborted reason ↦ abort_walk step.node reason heard
      ]

  pub data Finish : Type 0 where
    finish_ok : RunResult → Finish
    finish_cancelled : String → Finish

  abbrev first_error : List String → Option String
  first_error [] = none
  first_error (e ∷ l) = some e

  unfoldable pub finish : Walk → Finish
  finish walk = elim walk.cancelled [
    | some reason ↦ finish_cancelled reason
    | none ↦ finish_ok (record {
      ok = is_nil walk.errors;
      outputs = walk.outputs;
      error = first_error walk.errors;
      events = walk.events ++ run_end (is_nil walk.errors) ∷ [];
    })
  ]

  abbrev pub Execute : Type 0
  Execute = Handle → ExecutionContext → World → Reply

  -- `step.executor.execute(&mut ctx)`: a host's executor, or the fence of durable/replay.rs.
  unfoldable pub execute : Execute → SharedExecutor → ExecutionContext → World → Reply
  unfolding only
  execute call (host h) ctx w = call h ctx w
  execute call fence ctx w = record {
    world = w;
    emitted = [];
    outcome = value (only fence_port null);
  }

  -- The `while let` of `FlowRunner::run`. Each round moves the cursor or ends the walk.
  unfoldable pub run_loop : ℕ → Execute → Setup → World → Walk → Option (Walk × World)
  unfolding next_step execute context_for resume
  run_loop zero call s w walk = none
  run_loop (suc fuel) call s w walk = elim (next_step s w walk) [
    | none ↦ none
    | some (walk', none) ↦ some (walk', w)
    | some (walk', some step) ↦
        let reply = execute call step.executor (context_for s walk' step) w in
        run_loop fuel call s reply.world (resume s step reply.emitted reply.outcome walk')
  ]

  run_started : Execute → Setup → World → Option Walk → Option (Finish × World)
  unfolding run_loop finish
  run_started call s w none = none
  run_started call s w (some walk) = elim (run_loop (suc (length walk.order)) call s w walk) [
    | none ↦ none
    | some (walk', w') ↦ some (finish walk', w')
  ]

  -- `FlowRunner::run`. `none` only where the sort does not end.
  unfoldable pub run : Execute → Setup → World → Option (Finish × World)
  unfolding run_started start
  run call s w = run_started call s w (start s w)
