-- ===== src/Durable/Retry.antt =====
-- durable/retry.rs: how many attempts a node gets, and the wait before the next one.
use fancy_flow_rs.Prelude.{
  ℕ, ◌≤◌, List, [], ◌∷◌, String, Bool, false, Option, some, none, if◌then◌else◌, ◌==◌, ◌≡◌, refl,
  sym, subst, arith, eq_iff, max,
}
use fancy_flow_rs.Prelude.BTreeMap
use fancy_flow_rs.Prelude.BTreeMap.{BTreeMap}
use fancy_flow_rs.Platform.{Platform}
use fancy_flow_rs.Schema.{FlowNode}
use fancy_flow_rs.Registry.Kind.{NodeKind}
use fancy_flow_rs.Registry.Kind
use fancy_flow_rs.Registry.KindId.{contains, dedup_extend, variants}
use fancy_flow_rs.Registry.Catalogue.{NodeKindRegistry}
use fancy_flow_rs.Registry.Catalogue

abbrev pub unsafe_to_replay : String
unsafe_to_replay = "unsafe-to-replay"

pub record RetryPolicy : Type 0 where
  pub tries : ℕ
  pub backoff_ms : ℕ
  pub per_kind : BTreeMap ℕ

abbrev pub default_policy : RetryPolicy
default_policy = record { tries = 1; backoff_ms = 0; per_kind = [] }

unfoldable pub with_kind_tries : RetryPolicy → String → ℕ → RetryPolicy
unfolding BTreeMap.insert
with_kind_tries policy kind tries = record policy {
  per_kind = BTreeMap.insert policy.per_kind kind tries;
}

abbrev says_unsafe : Option String → Bool
says_unsafe (some effects) = effects == unsafe_to_replay
says_unsafe none = false

module _ ⦃P : Platform⦄ where
  unfoldable pub kind_is_unsafe_to_replay : Option NodeKind → Bool
  kind_is_unsafe_to_replay (some kind) = says_unsafe kind.side_effects
  kind_is_unsafe_to_replay none = false

  unfoldable pub kind_ids : Option NodeKind → List String
  unfolding Kind.ids
  kind_ids (some kind) = Kind.ids kind
  kind_ids none = []

  -- The first of the ids that has an override.
  unfoldable pub override : BTreeMap ℕ → List String → Option ℕ
  unfolding BTreeMap.get
  override per_kind [] = none
  override per_kind (id ∷ l) = elim (BTreeMap.get per_kind id) [
    | some tries ↦ some tries
    | none ↦ override per_kind l
  ]

  unfoldable pub backoff_ms_for_kind : RetryPolicy → Option NodeKind → ℕ
  unfolding kind_is_unsafe_to_replay
  backoff_ms_for_kind policy kind = if kind_is_unsafe_to_replay kind then 0 else policy.backoff_ms

  -- Every id that an override for the node could be keyed under.
  unfoldable pub ids : FlowNode → Option NodeKind → List String
  unfolding dedup_extend kind_ids variants
  ids node kind = elim node.kind [
    | none ↦ []
    | some name ↦ dedup_extend (dedup_extend (name ∷ []) (kind_ids kind)) (variants name)
  ]

  unfoldable pub tries_for_kind : RetryPolicy → FlowNode → Option NodeKind → ℕ
  unfolding kind_is_unsafe_to_replay override ids
  tries_for_kind policy node kind =
      if kind_is_unsafe_to_replay kind then 1 else elim (override policy.per_kind (ids node kind)) [
        | some tries ↦ max tries 1
        | none ↦ max policy.tries 1
      ]

  unfoldable pub kind_in : FlowNode → NodeKindRegistry → Option NodeKind
  unfolding Catalogue.get
  kind_in node kinds = elim node.kind [ some name ↦ Catalogue.get kinds name | none ↦ none ]

  unfoldable pub tries_for : RetryPolicy → FlowNode → NodeKindRegistry → ℕ
  unfolding tries_for_kind kind_in
  tries_for policy node kinds = tries_for_kind policy node (kind_in node kinds)

  unfoldable pub backoff_ms_for : RetryPolicy → FlowNode → NodeKindRegistry → ℕ
  unfolding backoff_ms_for_kind kind_in
  backoff_ms_for policy node kinds = backoff_ms_for_kind policy (kind_in node kinds)

  unfoldable pub is_unsafe_to_replay : FlowNode → NodeKindRegistry → Bool
  unfolding kind_is_unsafe_to_replay kind_in
  is_unsafe_to_replay node kinds = kind_is_unsafe_to_replay (kind_in node kinds)

  override_one :
      (spelling : String) (n : ℕ) (l : List String)
      → override (BTreeMap.insert [] spelling n) l ≡ (if contains l spelling then some n else none)
  unfolding override BTreeMap.insert BTreeMap.get contains
  override_one spelling n [] = refl
  override_one spelling n (id ∷ l) =
      ground (arith, override_one spelling n l, eq_iff spelling id, eq_iff id spelling)

  -- A policy whose one override is keyed by any spelling of a kind: a node that may be replayed gets
  -- the override if the spelling is one that its kind answers to, and else the policy's tries, a
  -- number below one read as one. A node unsafe to replay gets one attempt whatever the policy.
  pub tries_for-with_kind_tries :
      (policy : RetryPolicy) (spelling : String) (n : ℕ) (node : FlowNode) (kind : Option NodeKind)
      → policy.per_kind ≡ []
      → (tries_for_kind (with_kind_tries policy spelling n) node kind ≡ (
          if kind_is_unsafe_to_replay kind
          then 1
          else max 1 (if contains (ids node kind) spelling then n else policy.tries)))
        × (1 ≤ tries_for_kind (with_kind_tries policy spelling n) node kind)
  unfolding tries_for_kind with_kind_tries
  tries_for-with_kind_tries policy spelling n node kind h =
      let one : override (BTreeMap.insert policy.per_kind spelling n) (ids node kind)
          ≡ (if contains (ids node kind) spelling then some n else none) =
        subst
          (λ m.
            override (BTreeMap.insert m spelling n) (ids node kind)
            ≡ (if contains (ids node kind) spelling then some n else none))
          (sym h) (override_one spelling n (ids node kind)) in
      ground (arith, one)
