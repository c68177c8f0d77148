-- ===== src/Executors.antt =====
-- executors.rs: which executor runs a node. runtime/context.rs: what an executor is called with.
-- An executor is a handle of the host's, or the fence of durable/replay.rs.
pub mod Context
use fancy_flow_rs.Prelude.{
  ℕ, List, [], ◌∷◌, ◌++◌, String, Bool, Option, some, none, if◌then◌else◌, ◌==◌, any,
}
use fancy_flow_rs.Prelude.BTreeMap
use fancy_flow_rs.Prelude.BTreeMap.{BTreeMap}
use fancy_flow_rs.Platform.{Platform}
use fancy_flow_rs.Schema.{FlowNode, FlowGraph}
use fancy_flow_rs.Registry.KindId.{bare, variants, dedup_push, dedup_extend}
use fancy_flow_rs.Registry.Catalogue.{NodeKindRegistry, ids_for}
use fancy_flow_rs.Runtime.Identity.{RunIdentity}
use fancy_flow_rs.Runtime.Events.{RunEvent}

-- The list, or the other one where it is empty.
abbrev or_else : List String → List String → List String
or_else [] other = other
or_else (x ∷ l) other = x ∷ l

-- The other list, unless this one is empty.
abbrev unless_empty : List String → List String → List String
unless_empty [] other = []
unless_empty (x ∷ l) other = other

module _ ⦃P : Platform⦄ where
  open P use {Value, Map, Handle, World}

  pub data SharedExecutor : Type 0 where
    host : Handle → SharedExecutor
    fence : SharedExecutor

  pub record ExecutorRegistry : Type 0 where
    pub by_kind : BTreeMap SharedExecutor
    pub by_node : BTreeMap SharedExecutor
    pub kinds : Option NodeKindRegistry

  pub record ExecutionContext : Type 0 where
    pub node : FlowNode
    pub inputs : Map
    pub depth : ℕ
    pub run : Option RunIdentity
    pub graph : FlowGraph
    pub executors : ExecutorRegistry
    pub kinds : Option NodeKindRegistry

  -- `Ok(value)`, or `Err(RunAborted { reason })`
  pub data Outcome : Type 0 where
    value : Value → Outcome
    aborted : String → Outcome

  -- What a call of an executor leaves: the host's state, the emitted events and the outcome.
  pub record Reply : Type 0 where
    pub world : World
    pub emitted : List RunEvent
    pub outcome : Outcome

  unfoldable pub bind_node : ExecutorRegistry → String → SharedExecutor → ExecutorRegistry
  unfolding BTreeMap.insert
  bind_node registry node_id executor = record registry {
    by_node = BTreeMap.insert registry.by_node node_id executor;
  }

  unfoldable pub bind_fallback : ExecutorRegistry → SharedExecutor → ExecutorRegistry
  unfolding BTreeMap.insert
  bind_fallback registry executor = record registry {
    by_kind = BTreeMap.insert registry.by_kind "*" executor;
  }

  unfoldable pub without_node_bindings : ExecutorRegistry → ExecutorRegistry
  without_node_bindings registry = record registry { by_node = [] }

  unfoldable pub catalogue_ids : Option NodeKindRegistry → String → List String
  unfolding ids_for
  catalogue_ids (some kinds) kind = ids_for kinds kind
  catalogue_ids none kind = []

  unfoldable pub kind_candidates : ExecutorRegistry → String → List String
  unfolding catalogue_ids dedup_extend variants
  kind_candidates registry kind =
      dedup_extend (dedup_extend (kind ∷ []) (catalogue_ids registry.kinds kind)) (variants kind)

  -- The first of the candidates that is bound.
  unfoldable pub find_bound : BTreeMap SharedExecutor → List String → Option SharedExecutor
  unfolding BTreeMap.get
  find_bound by_kind [] = none
  find_bound by_kind (id ∷ l) = elim (BTreeMap.get by_kind id) [
    | some found ↦ some found
    | none ↦ find_bound by_kind l
  ]

  unfoldable pub has_kind : ExecutorRegistry → String → Bool
  unfolding kind_candidates BTreeMap.contains_key
  has_kind registry kind =
      any (λ id. BTreeMap.contains_key registry.by_kind id) (kind_candidates registry kind)

  unfoldable pub has_fallback : ExecutorRegistry → Bool
  unfolding BTreeMap.contains_key
  has_fallback registry = BTreeMap.contains_key registry.by_kind "*"

  unfoldable pub resolve_kind : ExecutorRegistry → Option String → Option SharedExecutor
  unfolding find_bound kind_candidates
  resolve_kind registry (some kind) = find_bound registry.by_kind (kind_candidates registry kind)
  resolve_kind registry none = none

  unfoldable pub resolve_for : ExecutorRegistry → FlowNode → Option SharedExecutor
  unfolding BTreeMap.get resolve_kind
  resolve_for registry node = elim (BTreeMap.get registry.by_node node.id) [
    | some found ↦ some found
    | none ↦ elim (resolve_kind registry node.kind) [
      | some found ↦ some found
      | none ↦ BTreeMap.get registry.by_kind "*"
    ]
  ]

  -- The ids that a binding of `kind` answers to, but `kind` itself. `builtin_ids` stands for the
  -- table of registry/builtin.rs.
  unfoldable pub alias_ids : String → List String → List String → List String
  unfolding dedup_push
  alias_ids kind out [] = out
  alias_ids kind out (id ∷ l) = alias_ids kind (if id == kind then out else dedup_push out id) l

  unfoldable pub alias_ids_for : (String → List String) → ExecutorRegistry → String → List String
  unfolding alias_ids catalogue_ids bare variants
  alias_ids_for builtin_ids registry kind =
      let listed = catalogue_ids registry.kinds kind in
      let declared = or_else listed (builtin_ids (bare kind)) in
      unless_empty declared (alias_ids kind [] (declared ++ variants kind))

  unfoldable pub bind_all :
      BTreeMap SharedExecutor → List String → SharedExecutor → BTreeMap SharedExecutor
  unfolding BTreeMap.insert
  bind_all by_kind [] executor = by_kind
  bind_all by_kind (id ∷ l) executor = bind_all (BTreeMap.insert by_kind id executor) l executor

  unfoldable pub bind :
      (String → List String) → ExecutorRegistry → String → SharedExecutor → ExecutorRegistry
  unfolding bind_all alias_ids_for BTreeMap.insert
  bind builtin_ids registry kind executor =
      let bound = BTreeMap.insert registry.by_kind kind executor in
      if kind == "*" then record registry { by_kind = bound } else record registry {
        by_kind = bind_all bound (alias_ids_for builtin_ids registry kind) executor;
      }
