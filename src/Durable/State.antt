-- ===== src/Durable/State.antt =====
-- durable/state.rs: the rows of a durable run, the storage contract and the in-memory store.
pub mod Rows
pub mod History
pub mod Claims
use fancy_flow_rs.Prelude.{
  ℕ, ◌+◌, ◌-◌, ◌^◌, ℤ, List, [], ◌∷◌, String, Bool, true, false, Option, some, none, if◌then◌else◌,
  ◌==◌, ◌&&◌, min, ◌≡◌,
}
use fancy_flow_rs.Prelude.BTreeMap
use fancy_flow_rs.Prelude.BTreeMap.{BTreeMap}
use fancy_flow_rs.Platform.{Platform}

pub data NodeRunStatus : Type 0 where
  claimed completed skipped failed paused : NodeRunStatus

unfoldable pub as_str : NodeRunStatus → String
as_str claimed = "claimed"
as_str completed = "completed"
as_str skipped = "skipped"
as_str failed = "failed"
as_str paused = "paused"

unfoldable pub is_settled : NodeRunStatus → Bool
is_settled completed = true
is_settled skipped = true
is_settled failed = true
is_settled _ = false

unfoldable pub is_held : NodeRunStatus → Bool
is_held claimed = true
is_held paused = true
is_held _ = false

abbrev pub owned_by : Option String → String → Bool
owned_by (some holder) owner = holder == owner
owned_by none owner = false

abbrev pub u32_max : ℕ
u32_max = 2 ^ 32 - 1

module _ ⦃P : Platform⦄ where
  open P use {Value}

  pub record NodeState : Type 0 where
    pub status : NodeRunStatus
    pub ports : List String
    pub output : Option Value
    pub error : Option String
    pub owner : Option String
    pub attempts : ℕ
    pub first_attempt_at : Option ℤ

  unfoldable pub new_state : NodeRunStatus → NodeState
  new_state status = record {
    status = status;
    ports = [];
    output = none;
    error = none;
    owner = none;
    attempts = 0;
    first_attempt_at = none;
  }

  abbrev pub RunState : Type 0
  RunState = BTreeMap NodeState

  abbrev pub InMemoryClaimStore : Type 0
  InMemoryClaimStore = BTreeMap RunState

  abbrev pub or_default : Option RunState → RunState
  or_default (some run) = run
  or_default none = []

  -- `state`: every row of one run
  unfoldable pub state : InMemoryClaimStore → String → RunState
  unfolding BTreeMap.get
  state store run_key = or_default (BTreeMap.get store run_key)

  abbrev pub put_row : InMemoryClaimStore → String → String → NodeState → InMemoryClaimStore
  put_row store run_key node_id row =
      BTreeMap.insert store run_key (BTreeMap.insert (state store run_key) node_id row)

  -- The row of a first claim.
  unfoldable pub first_claim : String → ℤ → NodeState
  unfolding new_state
  first_claim owner now_millis = record (new_state claimed) {
    owner = some owner;
    attempts = 1;
    first_attempt_at = some now_millis;
  }

  -- The row of a claim that its owner enters again.
  unfoldable pub reclaim : NodeState → NodeState
  reclaim row = record row { attempts = min (row.attempts + 1) u32_max; status = claimed }

  unfoldable pub own_claim : NodeState → String → Bool
  unfolding is_held
  own_claim row owner = is_held row.status && owned_by row.owner owner

  unfoldable pub claim :
      InMemoryClaimStore → String → String → String → ℤ → InMemoryClaimStore × Bool
  unfolding state own_claim reclaim first_claim BTreeMap.get BTreeMap.insert
  claim store run_key node_id owner now_millis = elim (BTreeMap.get (state store run_key) node_id) [
    | none ↦ (put_row store run_key node_id (first_claim owner now_millis), true)
    | some row ↦
        if own_claim row owner
        then (put_row store run_key node_id (reclaim row), true)
        else (BTreeMap.insert store run_key (state store run_key), false)
  ]

  abbrev pub or_claimed : Option NodeState → NodeState
  or_claimed (some row) = row
  or_claimed none = new_state claimed

  -- Apply `change` to a row, which is made as a claim where it is missing.
  unfoldable pub with_entry :
      InMemoryClaimStore → String → String → (NodeState → NodeState) → InMemoryClaimStore
  unfolding state BTreeMap.get BTreeMap.insert
  with_entry store run_key node_id change =
      put_row store run_key node_id
        (change (or_claimed (BTreeMap.get (state store run_key) node_id)))

  unfoldable pub completed_row : Value → List String → NodeState → NodeState
  completed_row output ports row = record row {
    status = completed;
    output = some output;
    ports = ports;
    error = none;
  }

  unfoldable pub complete :
      InMemoryClaimStore → String → String → Value → List String → InMemoryClaimStore
  unfolding with_entry completed_row
  complete store run_key node_id output ports =
      with_entry store run_key node_id (completed_row output ports)

  unfoldable pub skipped_row : NodeState → NodeState
  skipped_row row = record row { status = skipped; ports = [] }

  unfoldable pub settled_row : Option NodeState → Bool
  unfolding is_settled
  settled_row (some row) = is_settled row.status
  settled_row none = false

  unfoldable pub skip : InMemoryClaimStore → String → String → InMemoryClaimStore × Bool
  unfolding with_entry skipped_row settled_row state BTreeMap.get
  skip store run_key node_id =
      if settled_row (BTreeMap.get (state store run_key) node_id)
      then (store, false)
      else (with_entry store run_key node_id skipped_row, true)

  unfoldable pub failed_row : String → NodeState → NodeState
  failed_row error row = record row { status = failed; error = some error; ports = [] }

  unfoldable pub fail : InMemoryClaimStore → String → String → String → InMemoryClaimStore
  unfolding with_entry failed_row
  fail store run_key node_id error = with_entry store run_key node_id (failed_row error)

  unfoldable pub paused_row : String → NodeState → NodeState
  paused_row reason row = record row { status = paused; error = some reason; ports = [] }

  unfoldable pub pause : InMemoryClaimStore → String → String → String → InMemoryClaimStore
  unfolding with_entry paused_row
  pause store run_key node_id reason = with_entry store run_key node_id (paused_row reason)

  unfoldable pub release : InMemoryClaimStore → String → String → InMemoryClaimStore
  unfolding BTreeMap.get BTreeMap.insert BTreeMap.remove
  release store run_key node_id = elim (BTreeMap.get store run_key) [
    | some run ↦ BTreeMap.insert store run_key (BTreeMap.remove run node_id)
    | none ↦ store
  ]
