-- ===== src/Durable/Completion.antt =====
-- durable/coordinator.rs: `run_to_completion`, the in-process driver.
pub mod Returns
use fancy_flow_rs.Prelude.{
  ℕ, zero, suc, ◌+◌, ◌-◌, ◌^◌, List, [], ◌∷◌, String, true, false, Option, some, none,
  if◌then◌else◌, length, ◌<>◌,
}
use fancy_flow_rs.Prelude.{join, decimal, ◌%◌}
use fancy_flow_rs.Prelude.BTreeMap
use fancy_flow_rs.Prelude.BTreeMap.{BTreeMap}
use fancy_flow_rs.Platform.{Platform}
use fancy_flow_rs.Schema.{FlowNode, or_text}
use fancy_flow_rs.Runtime.Pause.{PauseSignal}
use fancy_flow_rs.Engine.Walk.{is_nil}
use fancy_flow_rs.Durable.State.{
  NodeState, RunState, claimed, completed, skipped, failed, paused, is_settled,
}
use fancy_flow_rs.Durable.Store.{NodeClaimStore}
use fancy_flow_rs.Durable.Frontier.{is_complete, has_work_in_flight, row_settled}
use fancy_flow_rs.Durable.Coordinator.{
  NodeOutcome, not_claimed, node_completed, node_skipped, node_failed, node_paused, Coordinator,
  Session, DurableRunResult, run_key, tries_for, advance, outputs_in_graph_order, default_passes,
}
use fancy_flow_rs.Durable.RunNode.{run_node}

abbrev pub default_max_passes : ℕ
default_max_passes = 10000

module _ ⦃P : Platform⦄ ⦃S : NodeClaimStore⦄ where
  open P use {Map, empty}

  unfoldable pub mint_owner : Coordinator → String → Session → String × Session
  unfolding decimal
  mint_owner c node_id s =
      let next = (s.minted + 1) % 2 ^ 64 in
      (run_key c <> ":" <> node_id <> ":" <> decimal next, record s { minted = next })

  -- The `while` of the retries; `left` is `tries - attempts`.
  unfoldable pub retry_loop :
      ℕ → Coordinator → String → String → NodeOutcome × Session → Option (NodeOutcome × Session)
  unfolding run_node
  retry_loop zero c node_id owner (outcome, s) = some (outcome, s)
  retry_loop (suc left) c node_id owner (outcome, s) =
      elim (if outcome.retryable then some (run_node c node_id owner s) else none) [
        | none ↦ some (outcome, s)
        | some none ↦ none
        | some (some next) ↦ retry_loop left c node_id owner next
      ]

  unfoldable pub run_node_with_retries :
      Coordinator → String → Session → Option (NodeOutcome × Session)
  unfolding mint_owner retry_loop run_node tries_for
  run_node_with_retries c node_id s =
      let (owner, s') = mint_owner c node_id s in
      elim (run_node c node_id owner s') [
        | none ↦ none
        | some first ↦ retry_loop (tries_for c node_id - 1) c node_id owner first
      ]

  unfoldable pub outputs : Coordinator → Session → Map
  unfolding outputs_in_graph_order
  outputs c s = outputs_in_graph_order (S.state s.store (run_key c)) c.graph.nodes empty

  unfoldable pub stopped :
      Coordinator → Option String → Option PauseSignal → Session → DurableRunResult
  unfolding outputs
  stopped c error pause s = record {
    ok = false;
    outputs = outputs c s;
    error = error;
    pause = pause;
  }

  -- What the `for` over the ready nodes leaves: it went on to the end, the run stopped, or the
  -- engine's sort did not end.
  pub data Progress : Type 0 where
    going : Session → Progress
    halted : DurableRunResult → Session → Progress
    diverged : Progress

  abbrev after_node : Coordinator → NodeOutcome → Session → Progress
  after_node c outcome s = elim outcome.status [
    | node_paused ↦ halted (stopped c none outcome.pause s) s
    | node_failed ↦ halted (stopped c outcome.error none s) s
    | not_claimed ↦ going s
    | node_completed ↦ going s
    | node_skipped ↦ going s
  ]

  unfoldable pub run_ready : Coordinator → List String → Session → Progress
  unfolding run_node_with_retries stopped
  run_ready c [] s = going s
  run_ready c (id ∷ ids) s = elim (run_node_with_retries c id s) [
    | none ↦ diverged
    | some (outcome, s') ↦ elim (after_node c outcome s') [
      | going s'' ↦ run_ready c ids s''
      | halted result s'' ↦ halted result s''
      | diverged ↦ diverged
    ]
  ]

  unsettled : RunState → List FlowNode → List String
  unfolding BTreeMap.get is_settled
  unsettled state [] = []
  unsettled state (node ∷ nodes) =
      let rest = unsettled state nodes in
      if row_settled (BTreeMap.get state node.id) then rest else node.id ∷ rest

  -- The first failed row, in graph order.
  unfoldable pub find_failed : RunState → List FlowNode → Option NodeState
  unfolding BTreeMap.get
  find_failed state [] = none
  find_failed state (node ∷ nodes) = elim (BTreeMap.get state node.id) [
    | none ↦ find_failed state nodes
    | some entry ↦ elim entry.status [
      | failed ↦ some entry
      | claimed ↦ find_failed state nodes
      | completed ↦ find_failed state nodes
      | skipped ↦ find_failed state nodes
      | paused ↦ find_failed state nodes
    ]
  ]

  finished_result : Coordinator → Session → Option NodeState → DurableRunResult
  unfolding outputs
  finished_result c s none = record { ok = true; outputs = outputs c s; error = none; pause = none }
  finished_result c s (some entry) = record {
    ok = false;
    outputs = outputs c s;
    error = some (or_text entry.error "node failed");
    pause = none;
  }

  unfoldable pub conclude_run : Coordinator → Session → DurableRunResult
  unfolding is_complete has_work_in_flight unsettled find_failed finished_result stopped join
  conclude_run c s =
      let state = S.state s.store (run_key c) in
      if is_complete c.graph state
      then finished_result c s (find_failed state c.graph.nodes)
      else if has_work_in_flight state
      then stopped c (some "the run is waiting on work held elsewhere") none s
      else stopped c
          (some (
            "the run cannot progress; unsettled nodes: "
            <> join ", " (unsettled state c.graph.nodes)))
          none s

  -- The `for` over the passes.
  unfoldable pub run_passes : ℕ → Coordinator → Session → Option (DurableRunResult × Session)
  unfolding advance run_ready conclude_run
  run_passes zero c s = some (conclude_run c s, s)
  run_passes (suc passes) c s =
      let (ready, s') = advance c s in
      elim (is_nil ready) [
        | true ↦ some (conclude_run c s', s')
        | false ↦ elim (run_ready c ready s') [
          | going s'' ↦ run_passes passes c s''
          | halted result s'' ↦ some (result, s'')
          | diverged ↦ none
        ]
      ]

  unfoldable pub run_to_completion :
      Coordinator → Option ℕ → Session → Option (DurableRunResult × Session)
  unfolding run_passes default_passes
  run_to_completion c (some passes) s = run_passes passes c s
  run_to_completion c none s =
      run_passes (default_passes (length c.graph.nodes) default_max_passes) c s
