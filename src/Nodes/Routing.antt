-- ===== src/Nodes/Routing.antt =====
-- nodes/logic.rs and nodes/support/routing_diagnostics.rs: the nodes that take one of their ports.
pub mod Choice
pub mod OnePort
use Prim.Native.Char.{code}
use fancy_flow_rs.Prelude.{
  ℕ, ◌+◌, ◌-◌, List, [], ◌∷◌, String, Bool, true, false, not, Option, some, none, if◌then◌else◌,
  ◌==◌, ◌||◌, ◌&&◌, ◌<>◌, nat_beq, ltb, strip_prefix,
}
use fancy_flow_rs.Prelude.Scan.{byte_len, is_blank, trim, contains_text, strip_suffix}
use fancy_flow_rs.Platform.{Platform}
use fancy_flow_rs.Schema.{or_text}
use fancy_flow_rs.Runtime.Events.{RunEvent, info, warn, log, log_with_detail}
use fancy_flow_rs.Runtime.Port
use fancy_flow_rs.Executors.{ExecutionContext, value}
use fancy_flow_rs.Executors.Context.{
  Ran, abort, input_or_all, option, option_str, text_of, value_or,
}
use fancy_flow_rs.Nodes.Expr.{evaluate_in, truthy, text, resolve_path}

-- The opening braces that no closing ones match, pair by pair from the left.
unfoldable pub count_open : ℕ → String → ℕ
count_open open_count String.[] = open_count
count_open open_count (String.◌∷◌ c String.[]) = open_count
count_open open_count (String.◌∷◌ c (String.◌∷◌ d s)) =
    let opened = count_open (open_count + 1) s in
    let closed = count_open (open_count - 1) s in
    let other = count_open open_count (String.◌∷◌ d s) in
    if nat_beq (code c) b'{' && nat_beq (code d) b'{'
    then opened
    else if nat_beq (code c) b'}' && nat_beq (code d) b'}'
    then closed
    else other

abbrev pub quoted : String → String
quoted s = "\"" <> s <> "\""

module _ ⦃P : Platform⦄ where
  open P use {Value, Map, null, object, string, as_str, as_object, get, insert, empty}

  -- Why a routing field is refused, if it is.
  unfoldable pub refusal : String → String → Option String
  unfolding trim contains_text count_open
  refusal subject template =
      if is_blank (trim template)
      then none
      else if not (contains_text template "{{")
      then some (subject <> " is not an expression -- wrap it: {{ " <> trim template <> " }}")
      else if ltb 0 (count_open 0 template)
      then some (subject <> " has an unclosed expression -- close every {{ with }}")
      else none

  unfoldable pub validate_routing_expression : ExecutionContext → String → String → Option String
  unfolding option refusal trim
  validate_routing_expression ctx kind field = elim (text_of (option ctx field)) [
    | none ↦ none
    | some template ↦
        refusal (kind <> " " <> quoted ctx.node.id <> " " <> field <> " " <> quoted (trim template))
          template
  ]

  unfoldable pub unresolved_message : String → String → String → String → String
  unresolved_message node_id took_port config_key path =
      "Node " <> node_id <> " took the \"" <> took_port <> "\" port because `" <> config_key
      <> "` resolved to NOTHING — the path " <> path
      <> " names no field on this node's inputs. That is not the same as a false condition: the route was decided by an absent value rather than by the data."

  unfoldable pub unresolved_warning : ExecutionContext → String → String → String → RunEvent
  unfolding unresolved_message
  unresolved_warning ctx config_key took_port path =
      log_with_detail warn (unresolved_message ctx.node.id took_port config_key path)
        (some ctx.node.id)
        (object (
          insert
            (insert
              (insert (insert empty "node" (string ctx.node.id)) "configKey" (string config_key))
              "path" (string path))
            "tookPort" (string took_port)))

  abbrev behind_open : Option String → Option String
  behind_open (some rest) = strip_suffix rest "}}"
  behind_open none = none

  -- The path between the braces of a text that opens and closes with them.
  unfoldable pub braced_path : String → Option String
  unfolding strip_suffix
  braced_path trimmed =
      if ltb (byte_len trimmed) 4 then none else behind_open (strip_prefix trimmed "{{")

  abbrev is_some_value : Option Value → Bool
  is_some_value (some v) = true
  is_some_value none = false

  abbrev warn_of : ExecutionContext → String → String → Option String → List RunEvent
  warn_of ctx config_key took_port none = []
  warn_of ctx config_key took_port (some inner) =
      if is_blank (trim inner)
        || contains_text (trim inner) "}}"
        || is_some_value (resolve_path (trim inner) (object ctx.inputs))
      then []
      else unresolved_warning ctx config_key took_port (trim inner) ∷ []

  abbrev and_text : Option String → (String → Option String) → Option String
  and_text (some s) f = f s
  and_text none f = none

  -- What `warn_if_unresolved` emits.
  unfoldable pub warn_if_unresolved : ExecutionContext → String → String → List RunEvent
  unfolding option trim braced_path contains_text resolve_path unresolved_warning
  warn_if_unresolved ctx config_key took_port =
      warn_of ctx config_key took_port
        (and_text (text_of (option ctx config_key)) (λ condition. braced_path (trim condition)))

  unfoldable pub branch_port : ExecutionContext → String
  unfolding evaluate_in truthy option
  branch_port ctx =
      if truthy (evaluate_in (option ctx "condition") ctx.inputs) then "true" else "false"

  unfoldable pub branch : ExecutionContext → Ran
  unfolding validate_routing_expression branch_port warn_if_unresolved input_or_all abort
  branch ctx = elim (validate_routing_expression ctx "branch" "condition") [
    | some reason ↦ abort reason
    | none ↦ (
      warn_if_unresolved ctx "condition" (branch_port ctx),
      value (Port.branch (branch_port ctx) (input_or_all ctx)),
    )
  ]

  abbrev map_of : Option Value → Option Map
  map_of (some v) = as_object v
  map_of none = none

  abbrev field_of : Option Map → String → Option Value
  field_of (some m) key = get m key
  field_of none key = none

  unfoldable pub switch_port : ExecutionContext → String
  unfolding evaluate_in text option
  switch_port ctx =
      let key = text (some (evaluate_in (option ctx "value") ctx.inputs)) in
      or_text (text_of (field_of (map_of (option ctx "cases")) key)) "default"

  unfoldable pub switch_case : ExecutionContext → Ran
  unfolding validate_routing_expression switch_port warn_if_unresolved input_or_all abort
  switch_case ctx = elim (validate_routing_expression ctx "switch_case" "value") [
    | some reason ↦ abort reason
    | none ↦ (
      warn_if_unresolved ctx "value" (switch_port ctx),
      value (Port.only (switch_port ctx) (input_or_all ctx)),
    )
  ]
