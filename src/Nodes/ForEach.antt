-- ===== src/Nodes/ForEach.antt =====
-- nodes/logic.rs: `for_each`, which runs its lane once for each item.
pub mod Entering
pub mod Item
pub mod Iteration
use fancy_flow_rs.Prelude.{
  ℕ, ◌+◌, ◌^◌, List, [], ◌∷◌, ◌++◌, String, Bool, true, false, not, Option, some, none,
  if◌then◌else◌, ◌==◌, ◌&&◌, ◌<>◌, ltb, length, decimal,
}
use fancy_flow_rs.Prelude.Scan.{trim}
use fancy_flow_rs.Prelude.BTreeMap
use fancy_flow_rs.Prelude.BTreeMap.{BTreeMap}
use fancy_flow_rs.Platform.{Platform, View}
use fancy_flow_rs.Schema.{FlowEdge, FlowGraph, or_text, target_port}
use fancy_flow_rs.Registry.Catalogue.{NodeKindRegistry}
use fancy_flow_rs.Runtime.Port
use fancy_flow_rs.Runtime.Identity.{RunIdentity, descend}
use fancy_flow_rs.Runtime.Options.{RunOptions, default_options}
use fancy_flow_rs.Runtime.Pause.{is_pause}
use fancy_flow_rs.Executors.{
  ExecutionContext, Reply, Outcome, value, aborted, without_node_bindings,
}
use fancy_flow_rs.Executors.Context.{option, option_str}
use fancy_flow_rs.Engine.Walk.{Setup}
use fancy_flow_rs.Engine.Stepping.{Execute, Finish, finish_ok, finish_cancelled, run}
use fancy_flow_rs.Nodes.Expr.{evaluate_in}
use fancy_flow_rs.Nodes.Lane.{Lane, no_item_edge, lane, unfinished, for_each_lane}

module _ ⦃P : Platform⦄ where
  open P use {
    Value, Map, Float, World, is_finite, le_float, float_of, parse_float, display_float, is_null,
    view, as_str, as_f64, null, string, array, object, from_u64, empty, insert, entries,
  }

  abbrev values_of : List (String × Value) → List Value
  values_of [] = []
  values_of ((key, v) ∷ l) = v ∷ values_of l

  -- An object fans out over its values, and a value that is no collection is one item.
  unfoldable pub items_of : Value → List Value
  items_of source = elim (view source) [
    | View.object m ↦ values_of (entries m)
    | View.array items ↦ items
    | View.null ↦ []
    | View.bool b ↦ source ∷ []
    | View.number n ↦ source ∷ []
    | View.string s ↦ source ∷ []
  ]

  abbrev parse_text : Option String → Option Float
  parse_text (some s) = parse_float (trim s)
  parse_text none = none

  abbrev float_or : Option Float → Option Float → Option Float
  float_or (some x) y = some x
  float_or none y = y

  abbrev max_items_in : Option Value → Option Float
  max_items_in none = some (float_of 1000)
  max_items_in (some v) = float_or (as_f64 v) (parse_text (as_str v))

  -- A null option is absent, so that it is read as the default too.
  unfoldable pub max_items_option : ExecutionContext → Option Float
  unfolding option trim
  max_items_option ctx = max_items_in (option ctx "maxItems")

  abbrev pub hard_max_items : ℕ
  hard_max_items = 10000

  abbrev pub is_allowed : Float → Bool
  is_allowed max =
      is_finite max && le_float (float_of 1) max && le_float max (float_of hard_max_items)

  abbrev pub is_within : List Value → Float → Bool
  is_within items max = ltb (length items) (2 ^ 32) && le_float (float_of (length items)) max

  abbrev pub or_empty : Option Map → Map
  or_empty (some m) = m
  or_empty none = empty

  -- The item, on each port that an edge into the lane reads.
  unfoldable pub inputs_for : List FlowEdge → Value → BTreeMap Map → BTreeMap Map
  unfolding BTreeMap.get BTreeMap.insert target_port
  inputs_for [] item inputs = inputs
  inputs_for (edge ∷ edges) item inputs = inputs_for edges item (
      BTreeMap.insert inputs edge.target
        (insert (or_empty (BTreeMap.get inputs edge.target)) (target_port edge) item))

  abbrev descend_run : Option RunIdentity → String → ℕ → Option RunIdentity
  descend_run (some run) node_id index = some (descend run node_id (some index))
  descend_run none node_id index = none

  unfoldable pub item_options : ExecutionContext → List FlowEdge → ℕ → Value → RunOptions
  unfolding inputs_for descend
  item_options ctx entries index item = record default_options {
    initial_inputs = inputs_for entries item [];
    depth = ctx.depth + 1;
    run = descend_run ctx.run ctx.node.id index;
  }

  -- The lane runs on the registry without its bindings of single nodes.
  unfoldable pub item_setup :
      ExecutionContext → NodeKindRegistry → FlowGraph → List FlowEdge → ℕ → Value → Setup
  unfolding without_node_bindings item_options
  item_setup ctx builtin lane_graph entries index item = record {
    graph = lane_graph;
    executors = without_node_bindings ctx.executors;
    kinds = ctx.kinds;
    options = item_options ctx entries index item;
    kind_lookup = record { runner = ctx.kinds; executors = ctx.executors.kinds; builtin = builtin };
  }

  unfoldable pub outputs_map : Map → BTreeMap Value → Map
  outputs_map m [] = m
  outputs_map m ((id, v) ∷ outputs) = outputs_map (insert m id v) outputs

  pub data ItemEnd : Type 0 where
    succeeded : Map → ItemEnd
    failed : String → ItemEnd
    stopped : String → ItemEnd

  -- A pause is no failure: it stops the loop with its reason.
  unfoldable pub item_end : Finish → ItemEnd
  unfolding outputs_map is_pause
  item_end (finish_cancelled reason) = stopped reason
  item_end (finish_ok result) =
      if result.ok
      then succeeded (outputs_map empty result.outputs)
      else if is_pause (some (or_text result.error "unknown error"))
      then stopped (or_text result.error "unknown error")
      else failed (or_text result.error "unknown error")

  abbrev ended : Option (Finish × World) → Option (ItemEnd × World)
  ended none = none
  ended (some (end, w)) = some (item_end end, w)

  unfoldable pub failure : ℕ → Value → String → Value
  failure index item reason =
      object (
        insert (insert (insert empty "index" (from_u64 index)) "item" item) "error" (string reason))

  pub data LoopEnd : Type 0 where
    finished : List Value → List Value → LoopEnd
    loop_stopped : String → LoopEnd

  module _ (call : Execute) (builtin : NodeKindRegistry) (ctx : ExecutionContext)
      (lane_graph : FlowGraph) (entries_in : List FlowEdge) where
    unfoldable pub run_item : ℕ → Value → World → Option (ItemEnd × World)
    unfolding run item_setup item_end
    run_item index item w =
        ended (run call (item_setup ctx builtin lane_graph entries_in index item) w)

    -- `none` only where the sort of the lane does not end.
    unfoldable pub run_items :
        ℕ → List Value → List Value → List Value → World → Option (LoopEnd × World)
    unfolding run_item failure
    run_items index [] results failures w = some (finished results failures, w)
    run_items index (item ∷ items) results failures w = elim (run_item index item w) [
      | none ↦ none
      | some (succeeded outputs, w') ↦
          run_items (index + 1) items (results ++ object outputs ∷ []) failures w'
      | some (failed reason, w') ↦
          run_items (index + 1) items (results ++ null ∷ [])
            (failures ++ failure index item reason ∷ []) w'
      | some (stopped reason, w') ↦ some (loop_stopped reason, w')
    ]

  unfoldable pub collected : List Value → Value
  collected items =
      object (insert (insert empty "count" (from_u64 (length items))) "items" (array items))

  unfoldable pub aggregate : List Value → List Value → List Value → Value
  aggregate items results failures = object (
      insert
        (insert (insert (insert empty "items" (array items)) "results" (array results)) "failures"
          (array failures))
        "count" (from_u64 (length items)))

  abbrev reply : World → Outcome → Reply
  reply w outcome = record { world = w; emitted = []; outcome = outcome }

  abbrev complaint : ExecutionContext → String → String
  complaint ctx rest = "for_each \"" <> ctx.node.id <> "\" " <> rest

  abbrev loop_reply : List Value → Option (LoopEnd × World) → Option Reply
  loop_reply items none = none
  loop_reply items (some (loop_stopped reason, w)) = some (reply w (aborted reason))
  loop_reply items (some (finished results failures, w)) =
      some (reply w (value (Port.only "done" (aggregate items results failures))))

  abbrev is_no_nodes : FlowGraph → Bool
  is_no_nodes graph = elim graph.nodes [ [] ↦ true | n ∷ l ↦ false ]

  -- The refusals come in this order: an empty lane, a cap out of range, too many items.
  abbrev capped : ExecutionContext → List Value → Option Float → World → Option Reply → Option Reply
  capped ctx items none w run_lane =
      some (reply w (aborted (complaint ctx "maxItems must be between 1 and 10000")))
  capped ctx items (some max) w run_lane =
      if not (is_allowed max)
      then some (reply w (aborted (complaint ctx "maxItems must be between 1 and 10000")))
      else if not (is_within items max)
      then some (
          reply w (
            aborted (
              complaint ctx (
                "resolved "
                <> decimal (length items)
                <> " items exceeds its maxItems cap of "
                <> display_float max))))
      else run_lane

  unfoldable pub for_each_items :
      Execute → NodeKindRegistry → ExecutionContext → World → List Value → Lane → Option Reply
  unfolding run_items collected aggregate max_items_option
  for_each_items call builtin ctx w items unfinished = none
  for_each_items call builtin ctx w items no_item_edge = some (reply w (value (collected items)))
  for_each_items call builtin ctx w items (lane lane_graph entries_in) =
      if is_no_nodes lane_graph
      then some (reply w (aborted (complaint ctx "has an item edge but its derived lane is empty")))
      else capped ctx items (max_items_option ctx) w
          (loop_reply items (run_items call builtin ctx lane_graph entries_in 0 items [] [] w))

  unfoldable pub for_each : Execute → NodeKindRegistry → ExecutionContext → World → Option Reply
  unfolding items_of evaluate_in option option_str for_each_lane for_each_items
  for_each call builtin ctx w =
      for_each_items call builtin ctx w (items_of (evaluate_in (option ctx "source") ctx.inputs)) (
        if option_str ctx "mode" "" == "collect"
        then no_item_edge
        else for_each_lane ctx.graph ctx.node.id)
