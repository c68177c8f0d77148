-- ===== src/Durable/State/Rows.antt =====
-- What each operation of the store does to each row: the store is a map from a run and a node to a
-- row, and an operation changes one row.
use fancy_flow_rs.Prelude.{
  refl, ◌+◌, min, inr, inl, Option-cases, Bool-cases, ℤ, List, String, Option, some, none,
  if◌then◌else◌, ◌==◌, ◌&&◌, ◌≡◌, arith, eq_iff,
}
use fancy_flow_rs.Prelude.BTreeMap
use fancy_flow_rs.Prelude.BTreeMap.{get-insert, get-remove}
use fancy_flow_rs.Platform.{Platform}
use fancy_flow_rs.Durable.State.{
  min, [], claimed, completed, skipped, failed, paused, is_held, is_settled, owned_by, u32_max,
  new_state, NodeState, InMemoryClaimStore, state, put_row, claim, first_claim, reclaim, own_claim,
  with_entry, or_claimed, complete, completed_row, skip, skipped_row, settled_row, fail, failed_row,
  pause, paused_row, release,
}

module _ ⦃P : Platform⦄ where
  open P use {Value}

  -- One row of the store.
  abbrev pub row_at : InMemoryClaimStore → String → String → Option NodeState
  row_at store run_key node_id = BTreeMap.get (state store run_key) node_id

  pub row_at-put_row :
      (store : InMemoryClaimStore) (run node : String) (row : NodeState) (r n : String)
      → row_at (put_row store run node row) r n
        ≡ (if run == r && node == n then some row else row_at store r n)
  unfolding state
  row_at-put_row store run node row r n = ground (
    arith,
    get-insert store run (BTreeMap.insert (state store run) node row) r,
    get-insert (state store run) node row n,
    eq_iff run r,
  )

  -- The operations, with what they are called with.
  pub data Op : Type 0 where
    claim_op : (owner : String) → (now_millis : ℤ) → Op
    complete_op : (output : Value) → (ports : List String) → Op
    skip_op : Op
    fail_op : (error : String) → Op
    pause_op : (reason : String) → Op
    release_op : Op

  unfoldable pub apply : Op → InMemoryClaimStore → String → String → InMemoryClaimStore
  unfolding claim complete skip fail pause release
  apply (claim_op owner now_millis) store run node = (claim store run node owner now_millis).0
  apply (complete_op output ports) store run node = complete store run node output ports
  apply skip_op store run node = (skip store run node).0
  apply (fail_op error) store run node = fail store run node error
  apply (pause_op reason) store run node = pause store run node reason
  apply release_op store run node = release store run node

  -- The contract of the operations, as a step of a single row.
  unfoldable pub row_after : Op → Option NodeState → Option NodeState
  unfolding is_held is_settled
  row_after (claim_op owner now_millis) none = some (record {
    status = claimed;
    ports = [];
    output = none;
    error = none;
    owner = some owner;
    attempts = 1;
    first_attempt_at = some now_millis;
  })
  row_after (claim_op owner now_millis) (some row) =
      if is_held row.status && owned_by row.owner owner
      then some (record row { attempts = min (row.attempts + 1) u32_max; status = claimed })
      else some row
  row_after (complete_op output ports) row = some (record (or_claimed row) {
    status = completed;
    output = some output;
    ports = ports;
    error = none;
  })
  row_after skip_op none = some (record (or_claimed none) { status = skipped })
  row_after skip_op (some row) =
      if is_settled row.status then some row else some (record row { status = skipped; ports = [] })
  row_after (fail_op error) row =
      some (record (or_claimed row) { status = failed; error = some error; ports = [] })
  row_after (pause_op reason) row =
      some (record (or_claimed row) { status = paused; error = some reason; ports = [] })
  row_after release_op row = none

  module _ (store : InMemoryClaimStore) (run node r n : String) where
    row_at-with_entry :
        (change : NodeState → NodeState)
        → row_at (with_entry store run node change) r n ≡ (
            if run == r && node == n
            then some (change (or_claimed (row_at store run node)))
            else row_at store r n)
    unfolding with_entry
    row_at-with_entry change =
        row_at-put_row store run node (change (or_claimed (row_at store run node))) r n

    -- Writing back the run's rows, as a lost claim does, changes no row.
    row_at-touch : row_at (BTreeMap.insert store run (state store run)) r n ≡ row_at store r n
    unfolding state
    row_at-touch = ground (arith, get-insert store run (state store run) r, eq_iff run r)

    row_at-claim :
        (owner : String) (now_millis : ℤ)
        → row_at (claim store run node owner now_millis).0 r n ≡ (
            if run == r && node == n
            then row_after (claim_op owner now_millis) (row_at store run node)
            else row_at store r n)
    unfolding claim row_after first_claim reclaim own_claim new_state
    row_at-claim owner now_millis = elim (Option-cases (row_at store run node)) [
      | inl e ↦ rw (e, claim) (row_at-put_row store run node (first_claim owner now_millis) r n)
      | inr (row, e) ↦ elim (Bool-cases (own_claim row owner)) [
        | inl own ↦ rw (e, own, claim) (row_at-put_row store run node (reclaim row) r n)
        | inr other ↦
            rw (e, other, claim) (ground (arith, row_at-touch, eq_iff run r, eq_iff node n))
      ]
    ]

    row_after-skip_op :
        (row : Option NodeState)
        → row_after skip_op row
          ≡ (if settled_row row then row else some (skipped_row (or_claimed row)))
    unfolding row_after skipped_row settled_row new_state
    row_after-skip_op none = refl
    row_after-skip_op (some row) = refl

    row_at-skip : row_at (skip store run node).0 r n ≡ (
        if run == r && node == n
        then row_after skip_op (row_at store run node)
        else row_at store r n)
    unfolding skip
    row_at-skip =
        rw (row_after-skip_op (row_at store run node))
          (elim (Bool-cases (settled_row (row_at store run node))) [
            | inl settled ↦ rw settled (ground (arith, eq_iff run r, eq_iff node n))
            | inr open_row ↦ rw open_row (row_at-with_entry skipped_row)
          ])

    row_at-release :
        row_at (release store run node) r n
        ≡ (if run == r && node == n then none else row_at store r n)
    unfolding release state
    row_at-release = ground (
      arith,
      get-insert store run (BTreeMap.remove (state store run) node) r,
      get-remove (state store run) node n,
      eq_iff run r,
      eq_iff node n,
    )

-- Every operation of the in-memory store does to the row that it names what the contract says, and
-- leaves every other row of every run alone.
pub row_at-apply :
    ⦃P : Platform⦄ (op : Op) (store : InMemoryClaimStore) (run node r n : String)
    → row_at (apply op store run node) r n
      ≡ (if run == r && node == n then row_after op (row_at store run node) else row_at store r n)
unfolding apply row_after complete fail pause completed_row failed_row paused_row new_state
row_at-apply (claim_op owner now_millis) store run node r n =
    row_at-claim store run node r n owner now_millis
row_at-apply (complete_op output ports) store run node r n =
    row_at-with_entry store run node r n (completed_row output ports)
row_at-apply skip_op store run node r n = row_at-skip store run node r n
row_at-apply (fail_op error) store run node r n =
    row_at-with_entry store run node r n (failed_row error)
row_at-apply (pause_op reason) store run node r n =
    row_at-with_entry store run node r n (paused_row reason)
row_at-apply release_op store run node r n = row_at-release store run node r n
