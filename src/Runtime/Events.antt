-- ===== src/Runtime/Events.antt =====
-- runtime/events.rs: what a run reports.
use fancy_flow_rs.Prelude.{String, Bool, Option, some, none}
use fancy_flow_rs.Platform.{Platform}

pub data NodeStatus : Type 0 where
  idle queued running done error : NodeStatus

pub data LogLevel : Type 0 where
  info warn error debug : LogLevel

module _ ⦃P : Platform⦄ where
  open P use {Value}

  pub record RunEvent : Type 0 where
    pub kind : String
    pub node_id : Option String
    pub status : Option NodeStatus
    pub text : Option String
    pub port_id : Option String
    pub value : Option Value
    pub level : Option LogLevel
    pub message : Option String
    pub detail : Option Value
    pub ok : Option Bool
    pub error : Option String

  abbrev pub bare : String → RunEvent
  bare kind = record {
    kind = kind;
    node_id = none;
    status = none;
    text = none;
    port_id = none;
    value = none;
    level = none;
    message = none;
    detail = none;
    ok = none;
    error = none;
  }

  abbrev pub run_start : RunEvent
  run_start = bare "run-start"

  abbrev pub node_status : String → NodeStatus → Option String → RunEvent
  node_status node_id status text = record (bare "node-status") {
    node_id = some node_id;
    status = some status;
    text = text;
  }

  abbrev pub node_output : String → String → Value → RunEvent
  node_output node_id port_id value = record (bare "node-output") {
    node_id = some node_id;
    port_id = some port_id;
    value = some value;
  }

  abbrev pub log : LogLevel → String → Option String → RunEvent
  log level message node_id = record (bare "log") {
    node_id = node_id;
    level = some level;
    message = some message;
  }

  abbrev pub log_with_detail : LogLevel → String → Option String → Value → RunEvent
  log_with_detail level message node_id detail = record (log level message node_id) {
    detail = some detail;
  }

  abbrev pub run_end : Bool → RunEvent
  run_end ok = record (bare "run-end") { ok = some ok }

  abbrev pub run_error : String → RunEvent
  run_error text = record (bare "run-error") { error = some text }
