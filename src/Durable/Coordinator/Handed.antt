-- ===== src/Durable/Coordinator/Handed.antt =====
-- What `advance` hands out.
use fancy_flow_rs.Prelude.{
  ℕ, zero, suc, ◌+◌, ◌-◌, ◌≤◌, ◌<◌, List, [], ◌∷◌, String, true, if◌then◌else◌, ◌≡◌, inl, inr, refl,
  sym, subst, arith, nat_beq, Bool-cases, length, take, max,
}
use fancy_flow_rs.Prelude.BTreeMap.{IsMap}
use fancy_flow_rs.Platform.{Platform}
use fancy_flow_rs.Registry.KindId.{contains}
use fancy_flow_rs.Engine.Walk.{is_nil}
use fancy_flow_rs.Durable.State.{RunState}
use fancy_flow_rs.Durable.Store.{NodeClaimStore}
use fancy_flow_rs.Durable.Dispatch.{select_dispatch, held_count, select_dispatch_budget}
use fancy_flow_rs.Durable.Frontier.{compute}
use fancy_flow_rs.Durable.Frontier.Runnable.{IsRunnable, compute-IsRunnable}
use fancy_flow_rs.Durable.Coordinator.{
  Coordinator, Session, run_key, advance, settle_skips, deliver_skip_diagnostics,
}

contains-take :
    (n : ℕ) (l : List String) (id : String) → contains (take n l) id ≡ true → contains l id ≡ true
unfolding contains
contains-take zero l id h = cc
contains-take (suc n) [] id h = h
contains-take (suc n) (x ∷ l) id h = ground (arith, contains-take n l id)

module _ ⦃P : Platform⦄ where
  contains-select_dispatch :
      (ready : List String) (state : RunState) (cap : ℕ) (id : String)
      → contains (select_dispatch ready state cap) id ≡ true
      → contains ready id ≡ true
  unfolding select_dispatch
  contains-select_dispatch ready state cap id h = elim (Bool-cases (nat_beq cap 0)) [
    | inl open_cap ↦
        subst (λ b. contains (if b then ready else take (cap - held_count state) ready) id ≡ true)
          open_cap h
    | inr capped ↦ contains-take (cap - held_count state) ready id (
        subst (λ b. contains (if b then ready else take (cap - held_count state) ready) id ≡ true)
          capped h)
  ]

  module _ ⦃S : NodeClaimStore⦄ (c : Coordinator) (s : Session) where
    -- Every node that `advance` hands out could run by the rows that it read: it had no row, each of
    -- its sources has settled, by its row or by a skip of this call, and it has no inbound edge or one
    -- whose source completed on the port that the edge reads.
    pub advance-IsRunnable :
        (id : String)
        → IsMap (S.state s.store (run_key c))
        → contains (advance c s).0 id ≡ true
        → IsRunnable c.graph
            (S.state s.store (run_key c))
            (compute c.graph (S.state s.store (run_key c))).skipped
            id
    unfolding advance
    advance-IsRunnable id is_map handed =
        let state = S.state s.store (run_key c) in
        compute-IsRunnable c.graph state id is_map
          (contains-select_dispatch (compute c.graph state).ready _ c.max_concurrent id handed)

    settled_store :
        (skipped : List String)
        → S.state (settle_skips s.store (run_key c) skipped).0 (run_key c) ≡ (
            if is_nil skipped
            then S.state s.store (run_key c)
            else S.state (settle_skips s.store (run_key c) skipped).0 (run_key c))
    unfolding settle_skips
    settled_store [] = refl
    settled_store (x ∷ l) = refl

    deliver_store :
        (settled : List String) (state : RunState) (given : Session)
        → (deliver_skip_diagnostics c settled state given).store ≡ given.store
    unfolding deliver_skip_diagnostics
    deliver_store settled state given = elim (Bool-cases c.listening) [
      | inl on ↦ rw on refl
      | inr off ↦ rw off refl
    ]

    -- Under a cap, the nodes handed out and the nodes that are held after the call's skips are
    -- together within the cap, unless the nodes held exceed it already.
    pub advance_budget :
        0 < c.max_concurrent
        → length (advance c s).0 + held_count (S.state (advance c s).1.store (run_key c))
          ≤ max c.max_concurrent (held_count (S.state (advance c s).1.store (run_key c)))
    unfolding advance
    advance_budget h =
        let state = S.state s.store (run_key c) in
        let frontier = compute c.graph state in
        let settled = settle_skips s.store (run_key c) frontier.skipped in
        let counted = if is_nil frontier.skipped then state else S.state settled.0 (run_key c) in
        let given = length (select_dispatch frontier.ready counted c.max_concurrent) in
        let budget : given + held_count counted ≤ max c.max_concurrent (held_count counted) =
          (select_dispatch_budget frontier.ready counted c.max_concurrent h).2 in
        let after = deliver_store settled.1 state (record s { store = settled.0 }) in
        subst
          (λ store.
            given + held_count (S.state store (run_key c))
            ≤ max c.max_concurrent (held_count (S.state store (run_key c))))
          (sym after)
          (subst (λ rows. given + held_count rows ≤ max c.max_concurrent (held_count rows))
            (sym (settled_store frontier.skipped)) budget)
