-- ===== src/Runtime/Options.antt =====
-- runtime/options.rs: what a run is given, and what it returns. A signal and a clock belong to the
-- host, so both are read from the host's state.
use fancy_flow_rs.Prelude.{ℕ, ℤ, List, [], String, Bool, true, Option, some, none}
use fancy_flow_rs.Prelude.BTreeMap.{BTreeMap}
use fancy_flow_rs.Platform.{Platform}
use fancy_flow_rs.Runtime.Events.{RunEvent}
use fancy_flow_rs.Runtime.Identity.{RunIdentity}
use fancy_flow_rs.Schema.{or_text}

pub record AbortSignal : Type 0 where
  pub aborted : Bool
  pub reason : Option String

unfoldable pub abort : AbortSignal → Option String → AbortSignal
abort signal reason = record { aborted = true; reason = some (or_text reason "aborted") }

module _ ⦃P : Platform⦄ where
  open P use {Value, Map, World}

  pub record Timeout : Type 0 where
    pub budget_ms : ℤ
    pub clock : World → ℤ

  pub record RunOptions : Type 0 where
    pub timeout : Option Timeout
    pub signal : Option (World → AbortSignal)
    pub initial_inputs : BTreeMap Map
    pub resume_outputs : BTreeMap Value
    pub depth : ℕ
    pub run : Option RunIdentity

  abbrev pub default_options : RunOptions
  default_options = record {
    timeout = none;
    signal = none;
    initial_inputs = [];
    resume_outputs = [];
    depth = 0;
    run = none;
  }

  pub record RunResult : Type 0 where
    pub ok : Bool
    pub outputs : BTreeMap Value
    pub error : Option String
    pub events : List RunEvent
