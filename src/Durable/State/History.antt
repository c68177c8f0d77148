-- ===== src/Durable/State/History.antt =====
-- Histories of operations by any workers: the retry clock never moves, and a settled row stays.
use fancy_flow_rs.Prelude.{
  ℤ, List, [], ◌∷◌, String, Bool, true, false, Option, some, none, if◌then◌else◌, ◌==◌, ◌&&◌, ◌≡◌,
  refl, sym, subst, ◌∙◌, arith, eq_iff,
}
use fancy_flow_rs.Platform.{Platform}
use fancy_flow_rs.Durable.State.{
  NodeState, InMemoryClaimStore, own_claim, completed_row, settled_row, failed_row, paused_row,
  reclaim, skipped_row, is_held, is_settled,
}
use fancy_flow_rs.Durable.State.Rows.{
  Op, claim_op, skip_op, release_op, apply, row_after, row_at, row_at-apply,
}

module _ ⦃P : Platform⦄ where
  -- An operation with the run and the node that it names.
  pub record Call : Type 0 where
    pub op : Op
    pub run : String
    pub node : String

  unfoldable pub replay : InMemoryClaimStore → List Call → InMemoryClaimStore
  unfolding apply
  replay store [] = store
  replay store (c ∷ calls) = replay (apply c.op store c.run c.node) calls

  -- A row whose first attempt is dated, and which date.
  abbrev pub Dated : ℤ → Option NodeState → Type 0
  Dated at (some row) = row.first_attempt_at ≡ some at
  Dated at none = ⊥

  abbrev pub keeps_row : Op → Bool
  keeps_row release_op = false
  keeps_row _ = true

  abbrev pub KeepRows : List Call → Type 0
  KeepRows [] = Unit
  KeepRows (c ∷ calls) = (keeps_row c.op ≡ true) × KeepRows calls

  row_after-Dated :
      (op : Op) (row : Option NodeState) (at : ℤ)
      → keeps_row op ≡ true
      → Dated at row
      → Dated at (row_after op row)
  unfolding row_after completed_row skipped_row failed_row paused_row reclaim settled_row
  row_after-Dated release_op row at k d = cc
  row_after-Dated op none at k d = absurd d
  row_after-Dated op (some row) at k d = ground arith

  -- Whatever operations follow, on any rows of any runs and by any workers, a row that was first
  -- claimed at a time keeps that time as its `first_attempt_at`, unless a release drops a row.
  pub row_at-replay-Dated :
      (calls : List Call) (store : InMemoryClaimStore) (run node : String) (at : ℤ)
      → KeepRows calls
      → Dated at (row_at store run node)
      → Dated at (row_at (replay store calls) run node)
  unfolding replay
  row_at-replay-Dated [] store run node at keep d = d
  row_at-replay-Dated (c ∷ calls) store run node at keep d =
      row_at-replay-Dated calls (apply c.op store c.run c.node) run node at keep.1 (
        subst (Dated at) (sym (row_at-apply c.op store c.run c.node run node))
          (named (c.run == run && c.node == node) refl))
    where
      named :
          (b : Bool)
          → (c.run == run && c.node == node) ≡ b
          → Dated at
              (if b then row_after c.op (row_at store c.run c.node) else row_at store run node)
      named true e =
          let here : (c.run ≡ run) × (c.node ≡ node) =
            ground (arith, eq_iff c.run run, eq_iff c.node node) in
          row_after-Dated c.op (row_at store c.run c.node) at keep.0 (rw (here.0, here.1) d)
      named false e = d

  -- A settled row, and the calls that other workers and the frontier make: claims and skips.
  abbrev pub claims_or_skips : Op → Bool
  claims_or_skips (claim_op owner now_millis) = true
  claims_or_skips skip_op = true
  claims_or_skips _ = false

  abbrev pub ClaimsOrSkips : List Call → Type 0
  ClaimsOrSkips [] = Unit
  ClaimsOrSkips (c ∷ calls) = (claims_or_skips c.op ≡ true) × ClaimsOrSkips calls

  row_after-settled :
      (op : Op) (row : Option NodeState)
      → claims_or_skips op ≡ true
      → settled_row row ≡ true
      → row_after op row ≡ row
  unfolding row_after settled_row own_claim is_held is_settled
  row_after-settled op none k h = cc
  row_after-settled op (some row) k h = ground arith

  -- Whatever claims and skips follow, by any workers, a settled row stays as it is.
  pub row_at-replay-settled :
      (calls : List Call) (store : InMemoryClaimStore) (run node : String)
      → ClaimsOrSkips calls
      → settled_row (row_at store run node) ≡ true
      → row_at (replay store calls) run node ≡ row_at store run node
  unfolding replay
  row_at-replay-settled [] store run node k h = refl
  row_at-replay-settled (c ∷ calls) store run node k h =
      row_at-replay-settled calls (apply c.op store c.run c.node) run node k.1 (rw same h) ∙ same
    where
      same : row_at (apply c.op store c.run c.node) run node ≡ row_at store run node
      same = ground (
        arith,
        row_at-apply c.op store c.run c.node run node,
        row_after-settled c.op (row_at store run node) k.0 h,
        eq_iff c.run run,
        eq_iff c.node node,
      )
