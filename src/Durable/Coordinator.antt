-- ===== src/Durable/Coordinator.antt =====
-- durable/coordinator.rs: the per-node driver. `Coordinator` holds what a driver is built with, and
-- `Session` what its calls change: the store, the host's state, the counter of minted owner tokens
-- and the events that a listening sink has been given.
pub mod Handed
use fancy_flow_rs.Prelude.{
  ℕ, ◌+◌, ◌-◌, ◌^◌, ℤ, List, [], ◌∷◌, ◌++◌, String, Bool, true, false, Option, some, none,
  if◌then◌else◌, min, max,
}
use fancy_flow_rs.Prelude.BTreeMap
use fancy_flow_rs.Prelude.BTreeMap.{BTreeMap}
use fancy_flow_rs.Platform.{Platform}
use fancy_flow_rs.Schema.{FlowNode, FlowEdge, FlowGraph}
use fancy_flow_rs.Schema
use fancy_flow_rs.Registry.Catalogue.{NodeKindRegistry}
use fancy_flow_rs.Registry.KindId.{dedup_extend, contains}
use fancy_flow_rs.Runtime.Events.{RunEvent}
use fancy_flow_rs.Runtime.Identity.{RunIdentity}
use fancy_flow_rs.Runtime.Pause.{PauseSignal}
use fancy_flow_rs.Executors.{ExecutorRegistry}
use fancy_flow_rs.Engine.Undelivered.{
  KindLookup, PublishedPorts, kind_of, undelivered_edge_warnings, index_nodes,
}
use fancy_flow_rs.Engine.Walk.{incoming, is_nil}
use fancy_flow_rs.Engine.Stepping.{Execute}
use fancy_flow_rs.Durable.State.{NodeState, RunState, completed}
use fancy_flow_rs.Durable.Store.{NodeClaimStore}
use fancy_flow_rs.Durable.Retry.{RetryPolicy, tries_for_kind}
use fancy_flow_rs.Durable.Dispatch.{select_dispatch}
use fancy_flow_rs.Durable.Frontier.{compute}

pub data NodeOutcomeStatus : Type 0 where
  not_claimed : NodeOutcomeStatus
  node_completed : NodeOutcomeStatus
  node_skipped : NodeOutcomeStatus
  node_failed : NodeOutcomeStatus
  node_paused : NodeOutcomeStatus

module _ ⦃P : Platform⦄ where
  open P use {Value, Map, World, null, empty, insert}

  pub record NodeOutcome : Type 0 where
    pub node_id : String
    pub status : NodeOutcomeStatus
    pub output : Option Value
    pub ports : List String
    pub error : Option String
    pub pause : Option PauseSignal
    pub attempt : ℕ
    pub retryable : Bool

  unfoldable pub new_outcome : String → NodeOutcomeStatus → ℕ → NodeOutcome
  new_outcome node_id status attempt = record {
    node_id = node_id;
    status = status;
    output = none;
    ports = [];
    error = none;
    pause = none;
    attempt = attempt;
    retryable = false;
  }

  pub record DurableRunResult : Type 0 where
    pub ok : Bool
    pub outputs : Map
    pub error : Option String
    pub pause : Option PauseSignal

  pub record Coordinator : Type 0 where
    pub graph : FlowGraph
    pub executors : ExecutorRegistry
    pub run : RunIdentity
    pub clock : World → ℤ
    pub initial_inputs : BTreeMap Map
    pub retry : RetryPolicy
    pub kinds : Option NodeKindRegistry
    pub builtin : NodeKindRegistry
    pub listening : Bool
    pub max_concurrent : ℕ
    pub call : Execute

  abbrev pub kind_lookup : Coordinator → KindLookup
  kind_lookup c = record { runner = c.kinds; executors = c.executors.kinds; builtin = c.builtin }

  abbrev pub run_key : Coordinator → String
  run_key c = c.run.run_key

  abbrev or_null : Option Value → Value
  or_null (some v) = v
  or_null none = null

  -- The completed rows with their outputs, a missing output read as null.
  unfoldable pub completed_outputs : RunState → BTreeMap Value
  completed_outputs [] = []
  completed_outputs ((node_id, entry) ∷ state) =
      let rest = completed_outputs state in
      elim entry.status [ completed ↦ (node_id, or_null entry.output) ∷ rest | _ ↦ rest ]

  abbrev insert_completed : Map → String → Option NodeState → Map
  insert_completed outputs id none = outputs
  insert_completed outputs id (some entry) = elim entry.status [
    | completed ↦ insert outputs id (or_null entry.output)
    | _ ↦ outputs
  ]

  unfoldable pub outputs_in_graph_order : RunState → List FlowNode → Map → Map
  unfolding BTreeMap.get
  outputs_in_graph_order state [] outputs = outputs
  outputs_in_graph_order state (node ∷ nodes) outputs =
      outputs_in_graph_order state nodes
        (insert_completed outputs node.id (BTreeMap.get state node.id))

  unfoldable pub default_passes : ℕ → ℕ → ℕ
  default_passes node_count floor = max floor (min (node_count + 1) (2 ^ 64 - 1))

  abbrev pub row_completed : Option NodeState → Bool
  row_completed none = false
  row_completed (some entry) = elim entry.status [ completed ↦ true | _ ↦ false ]

  abbrev pub completed_ports : Option NodeState → List String
  completed_ports none = []
  completed_ports (some entry) = elim entry.status [ completed ↦ entry.ports | _ ↦ [] ]

  -- The rows' answers to the undelivered-edge rule.
  unfoldable pub claim_rows : RunState → PublishedPorts
  unfolding BTreeMap.get contains dedup_extend
  claim_rows state = record {
    completed = λ id. row_completed (BTreeMap.get state id);
    published = λ id port. contains (completed_ports (BTreeMap.get state id)) port;
    in_publication_order = λ id. dedup_extend [] (completed_ports (BTreeMap.get state id));
  }

  module _ ⦃S : NodeClaimStore⦄ where
    open S use {Store}

    pub record Session : Type 0 where
      pub store : Store
      pub world : World
      pub minted : ℕ
      pub delivered : List RunEvent

    unfoldable pub tries_for : Coordinator → String → ℕ
    unfolding tries_for_kind kind_of Schema.node
    tries_for c node_id = elim (Schema.node c.graph node_id) [
      | some node ↦ tries_for_kind c.retry node (kind_of (kind_lookup c) node)
      | none ↦ 1
    ]

    -- `Frontier::settle_skips`: the ids that this call settled.
    unfoldable pub settle_skips : Store → String → List String → Store × List String
    settle_skips store key [] = (store, [])
    settle_skips store key (id ∷ ids) =
        let (store', this_call) = S.skip store key id in
        let (store'', settled) = settle_skips store' key ids in
        (store'', if this_call then id ∷ settled else settled)

    skip_warnings : Coordinator → RunState → List String → List RunEvent
    unfolding claim_rows undelivered_edge_warnings incoming index_nodes BTreeMap.get
    skip_warnings c state [] = []
    skip_warnings c state (id ∷ ids) =
        let rest = skip_warnings c state ids in
        elim (BTreeMap.get (index_nodes [] c.graph.nodes) id) [
          | none ↦ rest
          | some target ↦
              undelivered_edge_warnings target (incoming c.graph.edges id) (claim_rows state)
                (index_nodes [] c.graph.nodes) (kind_lookup c)
              ++ rest
        ]

    unfoldable pub deliver_skip_diagnostics :
        Coordinator → List String → RunState → Session → Session
    unfolding skip_warnings
    deliver_skip_diagnostics c settled state s =
        if c.listening
        then record s { delivered = s.delivered ++ skip_warnings c state settled }
        else s

    unfoldable pub advance : Coordinator → Session → List String × Session
    unfolding compute settle_skips deliver_skip_diagnostics select_dispatch
    advance c s =
        let state = S.state s.store (run_key c) in
        let frontier = compute c.graph state in
        let (store', settled) = settle_skips s.store (run_key c) frontier.skipped in
        let s' = deliver_skip_diagnostics c settled state (record s { store = store' }) in
        let counted = if is_nil frontier.skipped then state else S.state store' (run_key c) in
        (select_dispatch frontier.ready counted c.max_concurrent, s')
