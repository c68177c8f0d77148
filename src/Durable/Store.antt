-- ===== src/Durable/Store.antt =====
-- durable/state.rs, the trait `NodeClaimStore`: what the coordinator needs of a store, with the
-- contract of each operation on the rows. The in-memory store keeps it.
use fancy_flow_rs.Prelude.{ℤ, List, String, Bool, not, if◌then◌else◌, ◌==◌, ◌&&◌, ◌≡◌}
use fancy_flow_rs.Prelude.BTreeMap
use fancy_flow_rs.Platform.{Platform}
use fancy_flow_rs.Durable.State.{NodeState, RunState, InMemoryClaimStore, settled_row}
use fancy_flow_rs.Durable.State
use fancy_flow_rs.Durable.State.Rows.{
  claim_op, complete_op, skip_op, fail_op, pause_op, row_after, row_at-apply, apply,
}
use fancy_flow_rs.Durable.State.Claims.{admits, claim-admits, skip-reports}

module _ ⦃P : Platform⦄ where
  open P use {Value}

  pub record NodeClaimStore : Type 1 where
    pub Store : Type 0
    pub claim : Store → String → String → String → ℤ → Store × Bool
    pub state : Store → String → RunState
    pub complete : Store → String → String → Value → List String → Store
    pub skip : Store → String → String → Store × Bool
    pub fail : Store → String → String → String → Store
    pub pause : Store → String → String → String → Store
    -- Each operation does its step to the row that it names, and nothing to any other row.
    pub claim_rows :
        (s : Store) (run node : String) (owner : String) (now : ℤ) (r n : String)
        → BTreeMap.get (state (claim s run node owner now).0 r) n ≡ (
            if run == r && node == n
            then row_after (claim_op owner now) (BTreeMap.get (state s run) node)
            else BTreeMap.get (state s r) n)
    -- A claim is won where the row is missing or held by the same owner.
    pub claim_won :
        (s : Store) (run node owner : String) (now : ℤ)
        → (claim s run node owner now).1 ≡ admits owner (BTreeMap.get (state s run) node)
    pub complete_rows :
        (s : Store) (run node : String) (output : Value) (ports : List String) (r n : String)
        → BTreeMap.get (state (complete s run node output ports) r) n ≡ (
            if run == r && node == n
            then row_after (complete_op output ports) (BTreeMap.get (state s run) node)
            else BTreeMap.get (state s r) n)
    pub skip_rows :
        (s : Store) (run node : String) (r n : String)
        → BTreeMap.get (state (skip s run node).0 r) n ≡ (
            if run == r && node == n
            then row_after skip_op (BTreeMap.get (state s run) node)
            else BTreeMap.get (state s r) n)
    -- A skip reports whether this call settled the row.
    pub skip_reports :
        (s : Store) (run node : String)
        → (skip s run node).1 ≡ not (settled_row (BTreeMap.get (state s run) node))
    pub fail_rows :
        (s : Store) (run node : String) (error : String) (r n : String)
        → BTreeMap.get (state (fail s run node error) r) n ≡ (
            if run == r && node == n
            then row_after (fail_op error) (BTreeMap.get (state s run) node)
            else BTreeMap.get (state s r) n)
    pub pause_rows :
        (s : Store) (run node : String) (reason : String) (r n : String)
        → BTreeMap.get (state (pause s run node reason) r) n ≡ (
            if run == r && node == n
            then row_after (pause_op reason) (BTreeMap.get (state s run) node)
            else BTreeMap.get (state s r) n)

  pub state-claim :
      (s : InMemoryClaimStore) (run node : String) (owner : String) (now : ℤ) (r n : String)
      → BTreeMap.get (State.state ((State.claim s run node owner now).0) r) n ≡ (
          if run == r && node == n
          then row_after (claim_op owner now) (BTreeMap.get (State.state s run) node)
          else BTreeMap.get (State.state s r) n)
  unfolding apply
  state-claim s run node owner now = row_at-apply (claim_op owner now) s run node

  pub state-complete :
      (s : InMemoryClaimStore) (run node : String) (output : Value) (ports : List String)
      (r n : String)
      → BTreeMap.get (State.state (State.complete s run node output ports) r) n ≡ (
          if run == r && node == n
          then row_after (complete_op output ports) (BTreeMap.get (State.state s run) node)
          else BTreeMap.get (State.state s r) n)
  unfolding apply
  state-complete s run node output ports = row_at-apply (complete_op output ports) s run node

  pub state-skip :
      (s : InMemoryClaimStore) (run node : String) (r n : String)
      → BTreeMap.get (State.state ((State.skip s run node).0) r) n ≡ (
          if run == r && node == n
          then row_after skip_op (BTreeMap.get (State.state s run) node)
          else BTreeMap.get (State.state s r) n)
  unfolding apply
  state-skip s run node = row_at-apply skip_op s run node

  pub state-fail :
      (s : InMemoryClaimStore) (run node : String) (error : String) (r n : String)
      → BTreeMap.get (State.state (State.fail s run node error) r) n ≡ (
          if run == r && node == n
          then row_after (fail_op error) (BTreeMap.get (State.state s run) node)
          else BTreeMap.get (State.state s r) n)
  unfolding apply
  state-fail s run node error = row_at-apply (fail_op error) s run node

  pub state-pause :
      (s : InMemoryClaimStore) (run node : String) (reason : String) (r n : String)
      → BTreeMap.get (State.state (State.pause s run node reason) r) n ≡ (
          if run == r && node == n
          then row_after (pause_op reason) (BTreeMap.get (State.state s run) node)
          else BTreeMap.get (State.state s r) n)
  unfolding apply
  state-pause s run node reason = row_at-apply (pause_op reason) s run node

  -- The in-memory store keeps the contract.
  instance abbrev pub in_memory : NodeClaimStore
  in_memory = record {
    Store = InMemoryClaimStore;
    claim = State.claim;
    state = State.state;
    complete = State.complete;
    skip = State.skip;
    fail = State.fail;
    pause = State.pause;
    claim_rows = state-claim;
    claim_won = claim-admits;
    complete_rows = state-complete;
    skip_rows = state-skip;
    skip_reports = skip-reports;
    fail_rows = state-fail;
    pause_rows = state-pause;
  }
