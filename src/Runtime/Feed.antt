-- ===== src/Runtime/Feed.antt =====
-- runtime/events.rs: an event as a JSON value.
use fancy_flow_rs.Prelude.{String, Bool, Option, some, none, if◌then◌else◌, ◌==◌}
use fancy_flow_rs.Platform.{Platform}
use fancy_flow_rs.Runtime.Events.{
  NodeStatus, idle, queued, running, done, LogLevel, info, warn, debug, RunEvent,
}
use fancy_flow_rs.Schema.Json.{put, text_value}
use fancy_flow_rs.Executors.Context.{value_or}

unfoldable pub status_text : NodeStatus → String
status_text idle = "idle"
status_text queued = "queued"
status_text running = "running"
status_text done = "done"
status_text NodeStatus.error = "error"

unfoldable pub level_text : LogLevel → String
level_text info = "info"
level_text warn = "warn"
level_text LogLevel.error = "error"
level_text debug = "debug"

module _ ⦃P : Platform⦄ where
  open P use {Value, Map, null, bool, string, object, empty, insert}

  abbrev status_value : Option NodeStatus → Option Value
  unfolding status_text
  status_value (some status) = some (string (status_text status))
  status_value none = none

  abbrev level_value : Option LogLevel → Option Value
  unfolding level_text
  level_value (some level) = some (string (level_text level))
  level_value none = none

  abbrev flag_value : Option Bool → Option Value
  flag_value (some ok) = some (bool ok)
  flag_value none = none

  -- Only the fields of the event's kind are written.
  unfoldable pub event_map : RunEvent → Map
  unfolding status_value level_value
  event_map event =
      let head = insert empty "type" (string event.kind) in
      let at = put head "nodeId" (text_value event.node_id) in
      if event.kind == "node-status"
      then put (put at "status" (status_value event.status)) "text" (text_value event.text)
      else if event.kind == "node-output"
      then insert (put at "portId" (text_value event.port_id)) "value" (value_or event.value null)
      else if event.kind == "log"
      then put (put (put at "level" (level_value event.level)) "message" (text_value event.message))
          "detail" event.detail
      else if event.kind == "run-end"
      then put head "ok" (flag_value event.ok)
      else if event.kind == "run-error"
      then put head "error" (text_value event.error)
      else head

  unfoldable pub event_value : RunEvent → Value
  unfolding event_map
  event_value event = object (event_map event)
