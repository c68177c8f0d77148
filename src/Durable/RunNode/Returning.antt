-- ===== src/Durable/RunNode/Returning.antt =====
-- A call of `run_node` returns.
use fancy_flow_rs.Prelude.{[], String, some, ◌≡◌, inl, inr, refl, ap, Bool-cases, length}
use fancy_flow_rs.Prelude.BTreeMap
use fancy_flow_rs.Platform.{Platform}
use fancy_flow_rs.Registry.KindId.{dedup_extend}
use fancy_flow_rs.Engine.Topo.{node_ids}
use fancy_flow_rs.Durable.Store.{NodeClaimStore}
use fancy_flow_rs.Durable.Replay.Returning.{replay_up_to-returns}
use fancy_flow_rs.Durable.Coordinator.{
  NodeOutcome, Coordinator, Session, run_key, new_outcome, not_claimed,
}
use fancy_flow_rs.Durable.RunNode.{
  identity_for, node_options, replay_of, forward, judge, judge_replay, run_claimed, run_node,
}

module _ ⦃P : Platform⦄ where
  open P use {World}

  module _ ⦃S : NodeClaimStore⦄ (c : Coordinator) (node_id owner : String) (s : Session)
      (unique : length (dedup_extend [] (node_ids c.graph)) ≡ length (node_ids c.graph)) where
    run_claimed-returns :
        (given : Session) → (r : NodeOutcome × Session) × (run_claimed c node_id given ≡ some r)
    unfolding run_claimed
    run_claimed-returns given =
        let identity =
          identity_for c.run (BTreeMap.get (S.state given.store (run_key c)) node_id) in
        let (r, e) =
          replay_up_to-returns c.call c.graph (some node_id) c.executors c.kinds
            (node_options c (S.state given.store (run_key c)) identity) c.builtin given.world
            unique in
        (
          judge c node_id identity.attempt (replay_of r.0)
              (forward c node_id (replay_of r.0).result.events (record given { world = r.1 })),
          ap (judge_replay c node_id identity.attempt given) e,
        )

    pub run_node-returns : (r : NodeOutcome × Session) × (run_node c node_id owner s ≡ some r)
    unfolding run_node
    run_node-returns =
        elim (Bool-cases (S.claim s.store (run_key c) node_id owner (c.clock s.world)).1) [
          | inl taken ↦
              let (r, e) = run_claimed-returns (record s {
                store = (S.claim s.store (run_key c) node_id owner (c.clock s.world)).0;
              }) in
              (r, rw taken e)
          | inr lost ↦
              let out : NodeOutcome × Session = (
                new_outcome node_id not_claimed 0,
                record s {
                  store = (S.claim s.store (run_key c) node_id owner (c.clock s.world)).0;
                },
              ) in
              (out, rw lost refl)
        ]
