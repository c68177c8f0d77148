-- ===== src/Durable/RunNode/Records.antt =====
-- The rows that `run_node` leaves: the node's row records the outcome that is returned, and no other
-- row changes.
use fancy_flow_rs.Prelude.{
  ℕ, List, String, Option, some, none, if◌then◌else◌, ◌==◌, ◌&&◌, ◌||◌, ◌≡◌, ◌≢◌, inl, inr, refl,
  arith, eq_iff, eq_refl, ltb, Option-cases, Bool-cases, ◌<>◌,
}
use fancy_flow_rs.Prelude.BTreeMap
use fancy_flow_rs.Platform.{Platform}
use fancy_flow_rs.Schema.{or_text}
use fancy_flow_rs.Runtime.Pause.{PauseSignal, decode}
use fancy_flow_rs.Durable.State.{NodeState}
use fancy_flow_rs.Durable.State.Rows.{complete_op, skip_op, fail_op, pause_op, row_after}
use fancy_flow_rs.Durable.Store.{NodeClaimStore}
use fancy_flow_rs.Durable.Coordinator.{
  NodeOutcome, NodeOutcomeStatus, not_claimed, node_completed, node_skipped, node_failed,
  node_paused, new_outcome, Coordinator, Session, run_key, tries_for,
}
use fancy_flow_rs.Durable.Replay.{ReplayResult, is_boundary}
use fancy_flow_rs.Durable.RunNode.{
  judge, checkpoint, park, settle_unreached, fail_or_retry, own_pause,
}

module _ ⦃P : Platform⦄ where
  open P use {Value}

  -- A row after an outcome, given the row before it.
  abbrev Recorded : NodeOutcomeStatus → NodeOutcome → Option NodeState → Option NodeState → Type 0
  Recorded not_claimed o before after = after ≡ before
  Recorded node_completed o before after =
      (output : Value) × (o.output ≡ some output)
      × (after ≡ row_after (complete_op output o.ports) before)
  Recorded node_skipped o before after = after ≡ row_after skip_op before
  Recorded node_paused o before after =
      (reason : String) × (decode (some reason) ≡ o.pause)
      × (after ≡ row_after (pause_op reason) before)
  Recorded node_failed o before after =
      (reason : String) × (o.error ≡ some reason)
      × (after ≡ (if o.retryable then before else row_after (fail_op reason) before))

  abbrev pub IsRecorded : NodeOutcome → Option NodeState → Option NodeState → Type 0
  IsRecorded o before after = Recorded o.status o before after

  nothing_paused : (signal : PauseSignal) → decode none ≢ some signal
  unfolding decode
  nothing_paused signal e = cc

  module _ ⦃S : NodeClaimStore⦄ (c : Coordinator) (node_id : String) where
    open S use {Store}

    abbrev pub row : Store → String → String → Option NodeState
    row store run node = BTreeMap.get (S.state store run) node

    -- The node's row records the outcome, and every other row is as before.
    abbrev pub Settles : Store → NodeOutcome × Session → String → String → Type 0
    Settles before (o, s) r n =
        IsRecorded o (row before (run_key c) node_id) (row s.store (run_key c) node_id)
        × (row s.store r n ≡ (
            if run_key c == r && node_id == n
            then row s.store (run_key c) node_id
            else row before r n))

    checkpoint-Settles :
        (attempt : ℕ) (output : Value) (ports : List String) (s : Session) (r n : String)
        → Settles s.store (checkpoint c node_id attempt output ports s) r n
    unfolding checkpoint new_outcome
    checkpoint-Settles attempt output ports s r n =
        let law = S.complete_rows s.store (run_key c) node_id output ports in
        (
          (
            output,
            refl,
            ground (arith, law (run_key c) node_id, eq_refl (run_key c), eq_refl node_id),
          ),
          ground (arith, law r n, law (run_key c) node_id, eq_iff (run_key c) r, eq_iff node_id n),
        )

    park-Settles :
        (attempt : ℕ) (error : Option String) (signal : PauseSignal) (s : Session) (r n : String)
        → decode error ≡ some signal
        → Settles s.store (park c node_id attempt error signal s) r n
    unfolding park new_outcome
    park-Settles attempt error signal s r n h =
        let law = S.pause_rows s.store (run_key c) node_id (or_text error "") in
        (
          (
            or_text error "",
            named error h,
            ground (arith, law (run_key c) node_id, eq_refl (run_key c), eq_refl node_id),
          ),
          ground (arith, law r n, law (run_key c) node_id, eq_iff (run_key c) r, eq_iff node_id n),
        )
      where
        named :
            (o : Option String)
            → decode o ≡ some signal
            → decode (some (or_text o "")) ≡ some signal
        named (some text) e = e
        named none e = absurd (nothing_paused signal e)

    settle_unreached-Settles :
        (attempt : ℕ) (s : Session) (r n : String)
        → Settles s.store (settle_unreached c node_id attempt s) r n
    unfolding settle_unreached new_outcome
    settle_unreached-Settles attempt s r n =
        let law = S.skip_rows s.store (run_key c) node_id in
        (
          ground (arith, law (run_key c) node_id, eq_refl (run_key c), eq_refl node_id),
          ground (arith, law r n, law (run_key c) node_id, eq_iff (run_key c) r, eq_iff node_id n),
        )

    fail_or_retry-Settles :
        (attempt : ℕ) (error : Option String) (s : Session) (r n : String)
        → Settles s.store (fail_or_retry c node_id attempt error s) r n
    unfolding fail_or_retry new_outcome
    fail_or_retry-Settles attempt error s r n =
        let reason = or_text error ("node " <> node_id <> " produced no output and no error") in
        let law = S.fail_rows s.store (run_key c) node_id reason in
        elim (Bool-cases (ltb attempt (tries_for c node_id))) [
          | inl left ↦
              rw left ((reason, refl, refl), ground (arith, eq_iff (run_key c) r, eq_iff node_id n))
          | inr spent ↦ rw spent (
            (
              reason,
              refl,
              ground (arith, law (run_key c) node_id, eq_refl (run_key c), eq_refl node_id),
            ),
            ground
                (arith, law r n, law (run_key c) node_id, eq_iff (run_key c) r, eq_iff node_id n),
          )
        ]

    pub judge-Settles :
        (attempt : ℕ) (r : ReplayResult) (s : Session) (run n : String)
        → Settles s.store (judge c node_id attempt r s) run n
    unfolding judge own_pause
    judge-Settles attempt r s run n = elim (Option-cases (BTreeMap.get r.result.outputs node_id)) [
      | inr (output, e) ↦ rw (e, judge) (checkpoint-Settles attempt output _ s run n)
      | inl missing ↦ elim (Option-cases (own_pause node_id (decode r.result.error))) [
        | inr (signal, e) ↦
            rw (missing, e, judge)
              (park-Settles attempt r.result.error signal s run n
                (own_signal (decode r.result.error) signal e))
        | inl running ↦ elim (Bool-cases (is_boundary r.result.error || r.result.ok)) [
          | inl walked ↦
              rw (missing, running, walked, judge) (settle_unreached-Settles attempt s run n)
          | inr failed ↦
              rw (missing, running, failed, judge)
                (fail_or_retry-Settles attempt r.result.error s run n)
        ]
      ]
    ]
      where
        own_signal :
            (o : Option PauseSignal) (signal : PauseSignal)
            → own_pause node_id o ≡ some signal
            → o ≡ some signal
        own_signal none signal e = e
        own_signal (some x) signal e = ground arith
