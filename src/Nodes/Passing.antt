-- ===== src/Nodes/Passing.antt =====
-- nodes/trigger.rs, nodes/human.rs, nodes/output.rs, nodes/data.rs and nodes/ai.rs: the executors that
-- call nothing outside of the process.
use fancy_flow_rs.Prelude.{
  List, [], ◌∷◌, String, Bool, true, Option, some, none, if◌then◌else◌, ◌==◌,
}
use fancy_flow_rs.Platform.{Platform}
use fancy_flow_rs.Schema.{or_text}
use fancy_flow_rs.Schema.Json.{list_of, strings}
use fancy_flow_rs.Runtime.Events.{LogLevel, log}
use fancy_flow_rs.Runtime.Port
use fancy_flow_rs.Executors.{ExecutionContext, value}
use fancy_flow_rs.Executors.Context.{Ran, value_or, input, input_or_all, option, option_str}
use fancy_flow_rs.Nodes.Expr.{truthy, text, evaluate_in}
use fancy_flow_rs.Nodes.Shaping.{gives, insert_all}

unfoldable pub from_str_or_info : String → LogLevel
from_str_or_info s =
    if s == "warn"
    then LogLevel.warn
    else if s == "error"
    then LogLevel.error
    else if s == "debug"
    then LogLevel.debug
    else LogLevel.info

module _ ⦃P : Platform⦄ where
  open P use {Value, null, string, object, as_array, empty, insert, entries}

  unfoldable pub manual_trigger : ExecutionContext → Ran
  manual_trigger ctx = gives (object ctx.inputs)

  unfoldable pub webhook_trigger : ExecutionContext → Ran
  unfolding input
  webhook_trigger ctx = gives (value_or (input ctx "payload") (object ctx.inputs))

  -- A key of the inputs overwrites the schedule's.
  unfoldable pub schedule_trigger : ExecutionContext → Ran
  unfolding option option_str insert_all
  schedule_trigger ctx =
      let schedule =
        insert (insert empty "cron" (value_or (option ctx "cron") null)) "timezone"
          (string (option_str ctx "timezone" "UTC")) in
      gives (object (insert_all schedule (entries ctx.inputs)))

  unfoldable pub user_input : ExecutionContext → Ran
  unfolding input input_or_all
  user_input ctx = gives (value_or (input ctx "values") (input_or_all ctx))

  abbrev is_none_or_truthy : Option Value → Bool
  unfolding truthy
  is_none_or_truthy none = true
  is_none_or_truthy (some v) = truthy v

  -- Offline an approval is given unless an input denies it.
  unfoldable pub human_approval : ExecutionContext → Ran
  unfolding input input_or_all is_none_or_truthy
  human_approval ctx = gives (
      Port.branch (if is_none_or_truthy (input ctx "approved") then "approved" else "denied")
        (input_or_all ctx))

  unfoldable pub output : ExecutionContext → Ran
  unfolding input_or_all
  output ctx = gives (input_or_all ctx)

  -- An option filled as a template, and written as text.
  unfoldable pub option_text : ExecutionContext → String → String
  unfolding option evaluate_in text
  option_text ctx key =
      text (some (evaluate_in (some (value_or (option ctx key) (string ""))) ctx.inputs))

  unfoldable pub log_message : ExecutionContext → Ran
  unfolding option_str option_text from_str_or_info
  log_message ctx = (
    log (from_str_or_info (option_str ctx "level" "info")) (option_text ctx "message")
          (some ctx.node.id)
        ∷ [],
    value (
        object (
          insert (insert empty "logged" (string (option_text ctx "message"))) "level"
            (string (option_str ctx "level" "info")))),
  )

  unfoldable pub variable : ExecutionContext → Ran
  unfolding option evaluate_in
  variable ctx = gives (evaluate_in (option ctx "value") ctx.inputs)

  abbrev first_text : Option (List Value) → Option String
  first_text none = none
  first_text (some items) = elim (strings items) [ [] ↦ none | route ∷ routes ↦ some route ]

  -- Offline the first route that is declared is taken.
  unfoldable pub router_port : ExecutionContext → String
  unfolding option
  router_port ctx = or_text (first_text (list_of (option ctx "routes"))) "default"

  unfoldable pub llm_router : ExecutionContext → Ran
  unfolding router_port input_or_all
  llm_router ctx = gives (
      Port.only (router_port ctx) (
        object (
          insert (insert (insert empty "route" (string (router_port ctx))) "reason" (string ""))
            "input" (input_or_all ctx))))
