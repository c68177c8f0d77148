-- ===== src/Durable/Dispatch.antt =====
-- durable/dispatch.rs: how many nodes of a run may be held at once.
use fancy_flow_rs.Prelude.{
  take_prefix, length-take, ℕ, ◌+◌, ◌-◌, ◌≤◌, ◌<◌, ◌^◌, ℤ, List, ◌++◌, String, if◌then◌else◌, ◌≡◌,
  arith, nat_beq, length, take, min, max, ◌<>◌, display,
}
use fancy_flow_rs.Prelude.BTreeMap
use fancy_flow_rs.Prelude.BTreeMap.{BTreeMap}
use fancy_flow_rs.Prelude.{pos, negsuc}
use fancy_flow_rs.Platform.{Platform}
use fancy_flow_rs.Durable.State.{RunState, is_held}

abbrev pub usize_max : ℕ
usize_max = 2 ^ 64 - 1

-- The refusal is `FlowError::Contract` with a message that names `max_concurrent`.
pub data Limit : Type 0 where
  accepted : ℕ → Limit
  refused : String → Limit

unfoldable pub check_max_concurrent : ℤ → Limit
check_max_concurrent (pos value) = accepted (min value usize_max)
check_max_concurrent (negsuc n) = refused (
    "max_concurrent must be a positive cap, or UNLIMITED_CONCURRENCY (0) for the whole ready frontier; got "
    <> display (negsuc n)
    <> ". A negative limit is refused rather than read as unlimited.")

module _ ⦃P : Platform⦄ where
  unfoldable pub held_count : RunState → ℕ
  unfolding BTreeMap.count_values is_held
  held_count state = BTreeMap.count_values (λ entry. is_held entry.status) state

  unfoldable pub select_dispatch : List String → RunState → ℕ → List String
  unfolding held_count
  select_dispatch ready state max_concurrent =
      if nat_beq max_concurrent 0 then ready else take (max_concurrent - held_count state) ready

  select_dispatch_capped :
      (ready : List String) (state : RunState) (limit : ℕ)
      → 0 < limit
      → select_dispatch ready state limit ≡ take (limit - held_count state) ready
  unfolding select_dispatch
  select_dispatch_capped ready state limit h = ground arith

  -- Under a cap the nodes handed out are a beginning of `ready`, in its order: as many as the cap
  -- leaves room for beside the nodes held already, or all of `ready` if that is fewer. With them
  -- the nodes held stay within the cap, unless they exceed it already.
  pub select_dispatch_budget :
      (ready : List String) (state : RunState) (limit : ℕ)
      → 0 < limit
      → ((rest : List String) × (select_dispatch ready state limit ++ rest ≡ ready))
        × (length (select_dispatch ready state limit)
            ≡ min (limit - held_count state) (length ready))
        × (length (select_dispatch ready state limit) + held_count state
            ≤ max limit (held_count state))
  select_dispatch_budget ready state limit h =
      let room = limit - held_count state in
      let size = length-take room ready in
      let e = select_dispatch_capped ready state limit h in
      (rw e (take_prefix room ready), rw e size, rw e (omega (arith, size)))
