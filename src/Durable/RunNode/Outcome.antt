-- ===== src/Durable/RunNode/Outcome.antt =====
-- What a call of `run_node` does to the rows.
use fancy_flow_rs.Prelude.{
  ℕ, List, String, Bool, true, false, Option, some, none, if◌then◌else◌, ◌==◌, ◌&&◌, ◌≡◌, inl, inr,
  refl, sym, subst, ◌∙◌, arith, eq_iff, eq_refl, Bool-cases,
}
use fancy_flow_rs.Prelude.BTreeMap
use fancy_flow_rs.Platform.{Platform}
use fancy_flow_rs.Runtime.Events.{RunEvent}
use fancy_flow_rs.Durable.State.Rows.{claim_op, row_after}
use fancy_flow_rs.Durable.Store.{NodeClaimStore}
use fancy_flow_rs.Durable.Coordinator.{
  NodeOutcome, not_claimed, new_outcome, Coordinator, Session, run_key,
}
use fancy_flow_rs.Durable.Replay.{Replayed}
use fancy_flow_rs.Durable.RunNode.{judge, judge_replay, run_claimed, run_node, forward, replay_of}
use fancy_flow_rs.Durable.RunNode.Records.{IsRecorded, row, Settles, judge-Settles}

module _ ⦃P : Platform⦄ ⦃S : NodeClaimStore⦄ (c : Coordinator) (node_id : String) where
  open P use {World}

  forward_store :
      (events : List RunEvent) (s : Session) → (forward c node_id events s).store ≡ s.store
  unfolding forward
  forward_store events s = elim (Bool-cases c.listening) [
    | inl on ↦ rw on refl
    | inr off ↦ rw off refl
  ]

  same_result : (a b : NodeOutcome × Session) → some a ≡ some b → a ≡ b
  same_result a b e = cc

  judge_replay-Settles :
      (attempt : ℕ) (s : Session) (x : Option (Replayed × World)) (out : NodeOutcome × Session)
      (r n : String)
      → judge_replay c node_id attempt s x ≡ some out
      → Settles c node_id s.store out r n
  judge_replay-Settles attempt s none out r n h = cc
  judge_replay-Settles attempt s (some (end, w)) out r n h =
      let result = replay_of end in
      let heard = forward c node_id result.result.events (record s { world = w }) in
      subst (λ o. Settles c node_id s.store o r n) (same_result _ _ h)
        (subst (λ store. Settles c node_id store (judge c node_id attempt result heard) r n)
          (forward_store result.result.events (record s { world = w }))
          (judge-Settles c node_id attempt result heard r n))

  run_claimed-Settles :
      (s : Session) (out : NodeOutcome × Session) (r n : String)
      → run_claimed c node_id s ≡ some out
      → Settles c node_id s.store out r n
  unfolding run_claimed
  run_claimed-Settles s out r n h = judge_replay-Settles _ s _ out r n h

  module _ (owner : String) (s : Session) where
    abbrev claimed_store : S.Store
    claimed_store = (S.claim s.store (run_key c) node_id owner (c.clock s.world)).0

    abbrev won : Bool
    won = (S.claim s.store (run_key c) node_id owner (c.clock s.world)).1

    run_node-won :
        won ≡ true
        → run_node c node_id owner s ≡ run_claimed c node_id (record s { store = claimed_store })
    unfolding run_node
    run_node-won h = rw h refl

    run_node-lost :
        won ≡ false
        → run_node c node_id owner s
          ≡ some (new_outcome node_id not_claimed 0, record s { store = claimed_store })
    unfolding run_node
    run_node-lost h = rw h refl

    claimed_row :
        row c node_id claimed_store (run_key c) node_id
        ≡ row_after (claim_op owner (c.clock s.world)) (row c node_id s.store (run_key c) node_id)
    claimed_row = ground (
      arith,
      S.claim_rows s.store (run_key c) node_id owner (c.clock s.world) (run_key c) node_id,
      eq_refl (run_key c),
      eq_refl node_id,
    )

    -- The node's row records the outcome, given the row that the claim left, and every other row is as
    -- before the call.
    abbrev pub Records : NodeOutcome × Session → String → String → Type 0
    Records out r n =
        IsRecorded out.0
          (row_after (claim_op owner (c.clock s.world))
            (BTreeMap.get (S.state s.store (run_key c)) node_id))
          (BTreeMap.get (S.state out.1.store (run_key c)) node_id)
        × (BTreeMap.get (S.state out.1.store r) n ≡ (
            if run_key c == r && node_id == n
            then BTreeMap.get (S.state out.1.store (run_key c)) node_id
            else BTreeMap.get (S.state s.store r) n))

    -- A call that returns has recorded its outcome in the row of the node, as the claim left it: a
    -- completed node with its output and ports, a skipped one, a paused one with the text that the
    -- pause was read from, and a failed one with its error, unless the outcome is retryable or not
    -- claimed, when the row stays. Every other row is as before the call.
    pub run_node-IsRecorded :
        (out : NodeOutcome × Session) (r n : String)
        → run_node c node_id owner s ≡ some out
        → Records out r n
    unfolding new_outcome
    run_node-IsRecorded out r n h = elim (Bool-cases won) [
      | inl taken ↦
          let (recorded, frame) =
            run_claimed-Settles (record s { store = claimed_store }) out r n
              (sym (run_node-won taken) ∙ h) in
          (
            subst
                (λ before. IsRecorded out.0 before (row c node_id out.1.store (run_key c) node_id))
                claimed_row recorded,
            ground (
              arith,
              frame,
              S.claim_rows s.store (run_key c) node_id owner (c.clock s.world) r n,
              eq_iff (run_key c) r,
              eq_iff node_id n,
            ),
          )
      | inr lost ↦
          subst (λ o. Records o r n) (same_result _ _ (sym (run_node-lost lost) ∙ h))
            (
              claimed_row,
              ground (
                arith,
                claimed_row,
                S.claim_rows s.store (run_key c) node_id owner (c.clock s.world) r n,
                eq_iff (run_key c) r,
                eq_iff node_id n,
              ),
            )
    ]
