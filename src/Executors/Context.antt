-- ===== src/Executors/Context.antt =====
-- runtime/context.rs: what an executor asks of its context.
use fancy_flow_rs.Prelude.{List, [], String, Option, some, none, if◌then◌else◌}
use fancy_flow_rs.Platform.{Platform}
use fancy_flow_rs.Schema.{or_text}
use fancy_flow_rs.Runtime.Events.{RunEvent}
use fancy_flow_rs.Runtime.Pause.{encode}
use fancy_flow_rs.Executors.{ExecutionContext, Outcome, aborted}

module _ ⦃P : Platform⦄ where
  open P use {Value, Map, is_null, object, as_str, get}

  -- The events that an executor emits, and how it ends.
  abbrev pub Ran : Type 0
  Ran = List RunEvent × Outcome

  unfoldable pub abort : String → Ran
  abort reason = ([], aborted reason)

  unfoldable pub pause_for_human : ExecutionContext → String → Option Value → Ran
  unfolding encode
  pause_for_human ctx awaiting detail = (
    [],
    aborted (encode (record { node_id = ctx.node.id; awaiting = awaiting; detail = detail })),
  )

  unfoldable pub input : ExecutionContext → String → Option Value
  input ctx port = get ctx.inputs port

  abbrev pub value_or : Option Value → Value → Value
  value_or (some v) d = v
  value_or none d = d

  unfoldable pub input_or_all : ExecutionContext → Value
  unfolding input
  input_or_all ctx = value_or (input ctx "in") (object ctx.inputs)

  abbrev pub unless_null : Option Value → Option Value
  unless_null (some v) = if is_null v then none else some v
  unless_null none = none

  -- A null option is absent.
  unfoldable pub option : ExecutionContext → String → Option Value
  option ctx key = unless_null (get ctx.node.config key)

  abbrev pub text_of : Option Value → Option String
  text_of (some v) = as_str v
  text_of none = none

  unfoldable pub option_str : ExecutionContext → String → String → String
  unfolding option
  option_str ctx key default = or_text (text_of (option ctx key)) default
