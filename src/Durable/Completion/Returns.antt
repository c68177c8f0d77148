-- ===== src/Durable/Completion/Returns.antt =====
-- The in-process driver returns.
use fancy_flow_rs.Prelude.{
  ℕ, zero, suc, ◌-◌, List, [], ◌∷◌, String, Option, some, none, ◌≡◌, ◌⊎◌, inl, inr, refl,
  Bool-cases, length,
}
use fancy_flow_rs.Platform.{Platform}
use fancy_flow_rs.Registry.KindId.{dedup_extend}
use fancy_flow_rs.Engine.Topo.{node_ids}
use fancy_flow_rs.Engine.Walk.{is_nil}
use fancy_flow_rs.Durable.Store.{NodeClaimStore}
use fancy_flow_rs.Durable.Coordinator.{
  NodeOutcome, NodeOutcomeStatus, not_claimed, node_completed, node_skipped, node_failed,
  node_paused, Coordinator, Session, DurableRunResult, tries_for, advance, default_passes,
}
use fancy_flow_rs.Durable.RunNode.Returning.{run_node-returns}
use fancy_flow_rs.Durable.Completion.{
  mint_owner, retry_loop, run_node_with_retries, Progress, going, halted, after_node, run_ready,
  run_passes, run_to_completion, stopped, conclude_run, default_max_passes,
}

module _ ⦃P : Platform⦄ ⦃S : NodeClaimStore⦄ (c : Coordinator)
    (unique : length (dedup_extend [] (node_ids c.graph)) ≡ length (node_ids c.graph)) where
  abbrev Returns : Option (NodeOutcome × Session) → Type 0
  Returns o = (r : NodeOutcome × Session) × (o ≡ some r)

  retry_loop-Returns :
      (left : ℕ) (node_id owner : String) (first : NodeOutcome × Session)
      → Returns (retry_loop left c node_id owner first)
  unfolding retry_loop
  retry_loop-Returns zero node_id owner (outcome, s) = ((outcome, s), refl)
  retry_loop-Returns (suc left) node_id owner (outcome, s) = elim (Bool-cases outcome.retryable) [
    | inr over ↦ ((outcome, s), simp (over, retry_loop))
    | inl retried ↦
        let (next, e) = run_node-returns c node_id owner s unique in
        let (r, found) = retry_loop-Returns left node_id owner next in
        (r, rw (retried, e, retry_loop) found)
  ]

  run_node_with_retries-Returns :
      (node_id : String) (s : Session) → Returns (run_node_with_retries c node_id s)
  unfolding run_node_with_retries
  run_node_with_retries-Returns node_id s =
      let minted = mint_owner c node_id s in
      let (first, e) = run_node-returns c node_id minted.0 minted.1 unique in
      let (r, found) = retry_loop-Returns (tries_for c node_id - 1) node_id minted.0 first in
      (r, rw (e, run_node_with_retries) found)

  -- The loop over the ready nodes goes on, or the run stops.
  abbrev Continues : Progress → Type 0
  Continues p =
      ((s : Session) × (p ≡ going s)) ⊎ ((r : DurableRunResult) × (s : Session) × (p ≡ halted r s))

  after_node-Continues : (outcome : NodeOutcome) (s : Session) → Continues (after_node c outcome s)
  after_node-Continues outcome s = by_status outcome.status
    where
      by_status :
          (status : NodeOutcomeStatus)
          → Continues (elim status [
            | node_paused ↦ halted (stopped c none outcome.pause s) s
            | node_failed ↦ halted (stopped c outcome.error none s) s
            | not_claimed ↦ going s
            | node_completed ↦ going s
            | node_skipped ↦ going s
          ])
      by_status node_paused = inr (_, _, refl)
      by_status node_failed = inr (_, _, refl)
      by_status not_claimed = inl (_, refl)
      by_status node_completed = inl (_, refl)
      by_status node_skipped = inl (_, refl)

  run_ready-Continues : (ids : List String) (s : Session) → Continues (run_ready c ids s)
  unfolding run_ready
  run_ready-Continues [] s = inl (s, refl)
  run_ready-Continues (id ∷ ids) s =
      let ((outcome, s'), e) = run_node_with_retries-Returns id s in
      elim (after_node-Continues outcome s') [
        | inl (next, goes) ↦ rw (e, goes, run_ready) (run_ready-Continues ids next)
        | inr (r, last, stops) ↦ inr (r, last, rw (e, stops, run_ready) refl)
      ]

  abbrev Ends : Option (DurableRunResult × Session) → Type 0
  Ends o = (r : DurableRunResult × Session) × (o ≡ some r)

  run_passes-Ends : (passes : ℕ) (s : Session) → Ends (run_passes passes c s)
  unfolding run_passes
  run_passes-Ends zero s = (_, refl)
  run_passes-Ends (suc passes) s = elim (Bool-cases (is_nil (advance c s).0)) [
    | inl idle ↦ ((conclude_run c (advance c s).1, (advance c s).1), rw (idle, run_passes) refl)
    | inr busy ↦ elim (run_ready-Continues (advance c s).0 (advance c s).1) [
      | inl (next, goes) ↦
          let (r, found) = run_passes-Ends passes next in (r, rw (busy, goes, run_passes) found)
      | inr (r, last, stops) ↦ ((r, last), rw (busy, stops, run_passes) refl)
    ]
  ]

  -- Where no two nodes have one id, the in-process driver returns, over every store that keeps the
  -- contract, whatever the executors do and whatever limit of passes is given.
  pub run_to_completion-returns :
      (max_passes : Option ℕ) (s : Session)
      → (r : DurableRunResult × Session) × (run_to_completion c max_passes s ≡ some r)
  unfolding run_to_completion
  run_to_completion-returns (some passes) s = run_passes-Ends passes s
  run_to_completion-returns none s =
      run_passes-Ends (default_passes (length c.graph.nodes) default_max_passes) s
