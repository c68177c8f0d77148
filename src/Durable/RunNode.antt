-- ===== src/Durable/RunNode.antt =====
-- durable/coordinator.rs: `run_node` claims a node, replays the graph fenced to it and checkpoints.
pub mod Records
pub mod Outcome
pub mod Returning
use fancy_flow_rs.Prelude.{
  ℕ, ℤ, List, [], ◌∷◌, ◌++◌, String, Bool, true, false, Option, some, none, if◌then◌else◌, ◌==◌,
  ◌||◌, ltb, ◌<>◌,
}
use fancy_flow_rs.Prelude.BTreeMap
use fancy_flow_rs.Prelude.BTreeMap.{BTreeMap}
use fancy_flow_rs.Platform.{Platform}
use fancy_flow_rs.Schema.{or_text}
use fancy_flow_rs.Runtime.Events.{RunEvent}
use fancy_flow_rs.Runtime.Identity.{RunIdentity, with_attempt, with_first_attempt_at}
use fancy_flow_rs.Runtime.Options.{RunOptions}
use fancy_flow_rs.Runtime.Pause.{PauseSignal, decode}
use fancy_flow_rs.Durable.State.{NodeState, RunState}
use fancy_flow_rs.Durable.Store.{NodeClaimStore}
use fancy_flow_rs.Durable.Coordinator.{
  NodeOutcome, not_claimed, node_completed, node_skipped, node_failed, node_paused, new_outcome,
  Coordinator, Session, run_key, tries_for, completed_outputs,
}
use fancy_flow_rs.Durable.Replay.{
  ReplayResult, Replayed, replayed, cancelled, replay_up_to, is_boundary,
}

module _ ⦃P : Platform⦄ where
  open P use {Value, World}

  or_i64 : Option ℤ → ℤ → ℤ
  or_i64 (some t) d = t
  or_i64 none d = d

  -- The identity of this attempt, off the claim's row.
  unfoldable pub identity_for : RunIdentity → Option NodeState → RunIdentity
  unfolding with_attempt with_first_attempt_at or_i64
  identity_for run none = run
  identity_for run (some row) =
      with_first_attempt_at (with_attempt run row.attempts)
        (or_i64 row.first_attempt_at run.first_attempt_at)

  unfoldable pub cancelled_replay : String → ReplayResult
  cancelled_replay reason = record {
    result = record { ok = false; outputs = []; error = some reason; events = [] };
    ports = [];
  }

  unfoldable pub replay_of : Replayed → ReplayResult
  unfolding cancelled_replay
  replay_of (replayed r) = r
  replay_of (cancelled reason) = cancelled_replay reason

  unfoldable pub own_pause : String → Option PauseSignal → Option PauseSignal
  own_pause node_id none = none
  own_pause node_id (some signal) = if signal.node_id == node_id then some signal else none

  abbrev or_nil : Option (List String) → List String
  or_nil (some l) = l
  or_nil none = []

  -- A run-level event, or one of the node's own.
  abbrev concerns : String → RunEvent → Bool
  concerns node_id event = elim event.node_id [ some id ↦ id == node_id | none ↦ true ]

  unfoldable pub own_events : String → List RunEvent → List RunEvent
  own_events node_id [] = []
  own_events node_id (event ∷ events) =
      let rest = own_events node_id events in if concerns node_id event then event ∷ rest else rest

  module _ ⦃S : NodeClaimStore⦄ where
    unfoldable pub forward : Coordinator → String → List RunEvent → Session → Session
    unfolding own_events
    forward c node_id events s =
        if c.listening then record s { delivered = s.delivered ++ own_events node_id events } else s

    unfoldable pub checkpoint :
        Coordinator → String → ℕ → Value → List String → Session → NodeOutcome × Session
    unfolding new_outcome
    checkpoint c node_id attempt output ports s = (
      record (new_outcome node_id node_completed attempt) { output = some output; ports = ports },
      record s { store = S.complete s.store (run_key c) node_id output ports },
    )

    unfoldable pub park :
        Coordinator → String → ℕ → Option String → PauseSignal → Session → NodeOutcome × Session
    unfolding new_outcome
    park c node_id attempt error signal s = (
      record (new_outcome node_id node_paused attempt) { pause = some signal },
      record s { store = S.pause s.store (run_key c) node_id (or_text error "") },
    )

    unfoldable pub settle_unreached : Coordinator → String → ℕ → Session → NodeOutcome × Session
    unfolding new_outcome
    settle_unreached c node_id attempt s = (
      record (new_outcome node_id node_skipped attempt) {
        error = some "the engine skipped this node: no inbound edge was active";
      },
      record s { store = (S.skip s.store (run_key c) node_id).0 },
    )

    -- With attempts left the row stays claimed, and the outcome is retryable.
    unfoldable pub fail_or_retry :
        Coordinator → String → ℕ → Option String → Session → NodeOutcome × Session
    unfolding new_outcome tries_for
    fail_or_retry c node_id attempt error s =
        let reason = or_text error ("node " <> node_id <> " produced no output and no error") in
        if ltb attempt (tries_for c node_id)
        then (
          record (new_outcome node_id node_failed attempt) {
            error = some reason;
            retryable = true;
          },
          s,
        )
        else (
          record (new_outcome node_id node_failed attempt) { error = some reason },
          record s { store = S.fail s.store (run_key c) node_id reason },
        )

    unfoldable pub judge : Coordinator → String → ℕ → ReplayResult → Session → NodeOutcome × Session
    unfolding checkpoint park settle_unreached fail_or_retry own_pause decode is_boundary
        BTreeMap.get
    judge c node_id attempt r s = elim (BTreeMap.get r.result.outputs node_id) [
      | some output ↦ checkpoint c node_id attempt output (or_nil (BTreeMap.get r.ports node_id)) s
      | none ↦ elim (own_pause node_id (decode r.result.error)) [
        | some signal ↦ park c node_id attempt r.result.error signal s
        | none ↦
            if is_boundary r.result.error || r.result.ok
            then settle_unreached c node_id attempt s
            else fail_or_retry c node_id attempt r.result.error s
      ]
    ]

    abbrev node_options : Coordinator → RunState → RunIdentity → RunOptions
    node_options c state identity = record {
      timeout = none;
      signal = none;
      initial_inputs = c.initial_inputs;
      resume_outputs = completed_outputs state;
      depth = 0;
      run = some identity;
    }

    abbrev judge_replay :
        Coordinator
        → String
        → ℕ
        → Session
        → Option (Replayed × World)
        → Option (NodeOutcome × Session)
    judge_replay c node_id attempt s none = none
    judge_replay c node_id attempt s (some (end, w)) =
        let r = replay_of end in
        some
          (judge c node_id attempt r (forward c node_id r.result.events (record s { world = w })))

    unfoldable pub run_claimed : Coordinator → String → Session → Option (NodeOutcome × Session)
    unfolding identity_for completed_outputs replay_up_to judge forward replay_of BTreeMap.get
    run_claimed c node_id s =
        let state = S.state s.store (run_key c) in
        let identity = identity_for c.run (BTreeMap.get state node_id) in
        judge_replay c node_id identity.attempt s (
          replay_up_to c.call c.graph (some node_id) c.executors c.kinds
            (node_options c state identity) c.builtin s.world)

    -- `none` only where the engine's sort does not end.
    unfoldable pub run_node :
        Coordinator → String → String → Session → Option (NodeOutcome × Session)
    unfolding run_claimed new_outcome
    run_node c node_id owner s =
        let (store', won) = S.claim s.store (run_key c) node_id owner (c.clock s.world) in
        let s' = record s { store = store' } in
        if won then run_claimed c node_id s' else some (new_outcome node_id not_claimed 0, s')
