-- ===== src/Runtime/Pause.antt =====
-- runtime/pause.rs: the reason text that marks a run as waiting for a person.
pub mod RoundTrip
use fancy_flow_rs.Prelude.{
  List, [], ◌∷◌, String, Bool, true, false, Option, some, none, if◌then◌else◌, ◌==◌, ◌<>◌,
}
use fancy_flow_rs.Prelude.{strip_prefix}
use fancy_flow_rs.Platform.{Platform}

abbrev pub prefix : String
prefix = "fancy-flow:pause:"

abbrev pub legacy_prefixes : List (String × String)
legacy_prefixes = ("awaiting-approval:", "approval") ∷ ("awaiting-input:", "input") ∷ []

module _ ⦃P : Platform⦄ where
  open P use {
    Value, Map, is_null, string, object, as_str, as_object, empty, get, insert, to_string, parse,
  }

  pub record PauseSignal : Type 0 where
    pub node_id : String
    pub awaiting : String
    pub detail : Option Value

  unfoldable pub is_approval : PauseSignal → Bool
  is_approval signal = signal.awaiting == "approval"

  unfoldable pub is_input : PauseSignal → Bool
  is_input signal = signal.awaiting == "input"

  -- An absent detail and a null one are left out.
  abbrev put_detail : Map → Option Value → Map
  put_detail payload none = payload
  put_detail payload (some detail) =
      if is_null detail then payload else insert payload "detail" detail

  unfoldable pub payload : PauseSignal → Map
  payload signal =
      put_detail
        (insert (insert empty "nodeId" (string signal.node_id)) "awaiting" (string signal.awaiting))
        signal.detail

  unfoldable pub encode : PauseSignal → String
  unfolding payload
  encode signal = prefix <> to_string (object (payload signal))

  abbrev and_then {ℓ κ} : {A : Type ℓ} {B : Type κ} → Option A → (A → Option B) → Option B
  and_then (some a) f = f a
  and_then none f = none

  -- `Value::get`
  abbrev field : Value → String → Option Value
  field v key = and_then (as_object v) (λ m. get m key)

  unfoldable pub decode_body : String → Option PauseSignal
  decode_body body = and_then (parse body) λ parsed.
      and_then (and_then (field parsed "nodeId") as_str) λ node_id.
        and_then (and_then (field parsed "awaiting") as_str) λ awaiting.
          some (record { node_id = node_id; awaiting = awaiting; detail = field parsed "detail" })

  unfoldable pub decode_legacy : String → List (String × String) → Option PauseSignal
  unfolding strip_prefix
  decode_legacy reason [] = none
  decode_legacy reason ((old, awaiting) ∷ l) = elim (strip_prefix reason old) [
    | some node_id ↦ some (record { node_id = node_id; awaiting = awaiting; detail = none })
    | none ↦ decode_legacy reason l
  ]

  unfoldable pub decode_text : String → Option PauseSignal
  unfolding decode_body decode_legacy strip_prefix
  decode_text reason = elim (strip_prefix reason prefix) [
    | some body ↦ decode_body body
    | none ↦ decode_legacy reason legacy_prefixes
  ]

  unfoldable pub decode : Option String → Option PauseSignal
  unfolding decode_text
  decode none = none
  decode (some reason) = decode_text reason

  abbrev is_some_signal : Option PauseSignal → Bool
  is_some_signal (some signal) = true
  is_some_signal none = false

  unfoldable pub is_pause : Option String → Bool
  unfolding decode
  is_pause reason = is_some_signal (decode reason)
