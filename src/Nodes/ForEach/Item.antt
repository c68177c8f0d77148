-- ===== src/Nodes/ForEach/Item.antt =====
-- How the lane of one item ends, read from what its run returns.
use fancy_flow_rs.Prelude.{
  ℕ, List, [], String, true, false, Option, some, ◌≡◌, ◌⊎◌, inl, inr, refl, ap, ◌∙◌, ◌∷◌, none,
  Bool-cases, length,
}
use fancy_flow_rs.Prelude.BTreeMap.{BTreeMap}
use fancy_flow_rs.Platform.{Platform}
use fancy_flow_rs.Nodes.Shaping.Written.{last_of}
use fancy_flow_rs.Schema.{FlowEdge, FlowGraph, or_text}
use fancy_flow_rs.Registry.KindId.{dedup_extend}
use fancy_flow_rs.Registry.Catalogue.{NodeKindRegistry}
use fancy_flow_rs.Runtime.Options.{RunResult}
use fancy_flow_rs.Runtime.Pause.{is_pause}
use fancy_flow_rs.Executors.{ExecutionContext}
use fancy_flow_rs.Engine.Topo.{node_ids}
use fancy_flow_rs.Engine.Stepping.{Execute, Finish, finish_ok, finish_cancelled, run}
use fancy_flow_rs.Engine.Stepping.Total.{run_returns}
use fancy_flow_rs.Nodes.ForEach.{
  ItemEnd, succeeded, failed, stopped, outputs_map, item_end, item_setup, failure, run_item,
}

module _ ⦃P : Platform⦄ where
  get-outputs_map :
      (m : P.Map) (outputs : BTreeMap P.Value) (id : String)
      → P.get (outputs_map m outputs) id ≡ last_of id outputs (P.get m id)
  unfolding outputs_map
  get-outputs_map m [] id = refl
  get-outputs_map m ((k, v) ∷ outputs) id =
      get-outputs_map (P.insert m k v) outputs id ∙ ap (last_of id outputs) (P.get-insert m k v id)

module _ ⦃P : Platform⦄ (call : Execute) (builtin : NodeKindRegistry) (ctx : ExecutionContext)
    (lane_graph : FlowGraph) (entries : List FlowEdge) (index : ℕ) (item : P.Value)
    (w : P.World) where
  open P use {Value, Map, World, empty, object, string, from_u64}

  abbrev ran : Option (Finish × World)
  ran = run call (item_setup ctx builtin lane_graph entries index item) w

  -- The run succeeds, and these are its outputs by node.
  abbrev pub Succeeds : Map → World → Type 0
  Succeeds outputs next =
      (result : RunResult) × (ran ≡ some (finish_ok result, next))
      × (result.ok ≡ true)
      × ((id : String) → P.get outputs id ≡ last_of id result.outputs none)

  -- The run fails with an error that is no pause.
  abbrev pub Fails : String → World → Type 0
  Fails reason next =
      (result : RunResult) × (ran ≡ some (finish_ok result, next))
      × (result.ok ≡ false)
      × (or_text result.error "unknown error" ≡ reason)
      × (is_pause (some reason) ≡ false)

  -- The entry of the failures for the item: its index, the item and the error.
  abbrev pub IsFailure : String → Value → Type 0
  IsFailure reason entry =
      (m : Map) × (entry ≡ object m)
      × (P.get m "index" ≡ some (from_u64 index))
      × (P.get m "item" ≡ some item)
      × (P.get m "error" ≡ some (string reason))

  pub failure-IsFailure : (reason : String) → IsFailure reason (failure index item reason)
  unfolding failure
  failure-IsFailure reason =
      (_, refl, simp (P.get-insert), simp (P.get-insert), simp (P.get-insert))

  -- The run is cancelled, or it fails with a pause.
  abbrev pub IsStopped : String → World → Type 0
  IsStopped reason next =
      (ran ≡ some (finish_cancelled reason, next))
      ⊎ ((result : RunResult) × (ran ≡ some (finish_ok result, next))
          × (result.ok ≡ false)
          × (or_text result.error "unknown error" ≡ reason)
          × (is_pause (some reason) ≡ true))

  -- The end of an item, beside what its run returned.
  abbrev pub ItemEnds : ItemEnd → World → Type 0
  ItemEnds (succeeded outputs) next = Succeeds outputs next
  ItemEnds (failed reason) next = Fails reason next
  ItemEnds (stopped reason) next = IsStopped reason next

  item_end-ItemEnds :
      (end : Finish) (next : World) → ran ≡ some (end, next) → ItemEnds (item_end end) next
  unfolding item_end
  item_end-ItemEnds (finish_cancelled reason) next e = inl e
  item_end-ItemEnds (finish_ok result) next e = elim (Bool-cases result.ok) [
    | inl fine ↦
        rw (fine, item_end)
          (
            result,
            e,
            fine,
            λ id.
                get-outputs_map empty result.outputs id
                ∙ ap (last_of id result.outputs) (P.get-empty id),
          )
    | inr failing ↦ elim (Bool-cases (is_pause (some (or_text result.error "unknown error")))) [
      | inl pauses ↦ rw (failing, pauses, item_end) (inr (result, e, failing, refl, pauses))
      | inr plain ↦ rw (failing, plain, item_end) (result, e, failing, refl, plain)
    ]
  ]

  pub run_item-ItemEnds :
      length (dedup_extend [] (node_ids lane_graph)) ≡ length (node_ids lane_graph)
      → (end : ItemEnd) × (next : World) × (run_item call builtin ctx lane_graph entries index item
            w
          ≡ some (end, next))
        × ItemEnds end next
  unfolding run_item item_setup
  run_item-ItemEnds unique =
      let ((end, next), e) =
        run_returns call (item_setup ctx builtin lane_graph entries index item) w unique in
      (item_end end, next, rw (e, run_item) refl, item_end-ItemEnds end next e)
