-- ===== src/Runtime/Pause/RoundTrip.antt =====
-- Decoding an encoded pause.
use fancy_flow_rs.Prelude.{
  String, Option, some, none, if◌then◌else◌, ◌==◌, ◌≡◌, sym, ap, subst, arith, eq_iff, ◌<>◌,
}
use text.Mathlib.TextLemmas.{nil-append, cons-append}
use fancy_flow_rs.Prelude.{strip_prefix}
use fancy_flow_rs.Platform.{Platform}
use fancy_flow_rs.Runtime.Pause.{
  PauseSignal, prefix, payload, put_detail, encode, decode, decode_text, decode_body,
}

strip_prefix-prefix : (p s : String) → strip_prefix (p <> s) p ≡ some s
unfolding strip_prefix
strip_prefix-prefix String.[] s = ap some (nil-append s)
strip_prefix-prefix (String.◌∷◌ c p) s =
    subst (λ u. strip_prefix u (String.◌∷◌ c p) ≡ some s) (sym (cons-append c p s))
      (ground (arith, strip_prefix-prefix p s))

module _ ⦃P : Platform⦄ where
  open P use {
    Value, Map, is_null, string, object, as_str-string, as_object-object, get-insert, get-empty,
    parse, to_string,
  }

  -- A null detail is not written.
  abbrev pub written : PauseSignal → PauseSignal
  written signal = record signal {
    detail = elim signal.detail [
      | some detail ↦ if is_null detail then none else some detail
      | none ↦ none
    ];
  }

  abbrev detail_of : Option Value → Option Value
  detail_of (some detail) = if is_null detail then none else some detail
  detail_of none = none

  get-put_detail :
      (m : Map) (detail : Option Value) (key : String)
      → P.get (put_detail m detail) key ≡ (
          if key == "detail"
          then (elim (detail_of detail) [ some d ↦ some d | none ↦ P.get m key ])
          else P.get m key)
  get-put_detail m none key = ground arith
  get-put_detail m (some d) key =
      ground (arith, get-insert m "detail" d key, eq_iff "detail" key, eq_iff key "detail")

  -- Where the JSON package reads back what it prints for the payload, decoding an encoded pause gives
  -- the pause, a null detail read as none.
  pub decode-encode :
      (signal : PauseSignal)
      → parse (to_string (object (payload signal))) ≡ some (object (payload signal))
      → decode (some (encode signal)) ≡ some (written signal)
  unfolding decode decode_text decode_body encode payload
  decode-encode signal h =
      let m =
        P.insert (P.insert P.empty "nodeId" (string signal.node_id)) "awaiting"
          (string signal.awaiting) in
      let body = to_string (object (payload signal)) in
      ground (
        arith,
        h,
        strip_prefix-prefix prefix body,
        as_object-object (payload signal),
        get-put_detail m signal.detail "nodeId",
        get-put_detail m signal.detail "awaiting",
        get-put_detail m signal.detail "detail",
        get-insert (P.insert P.empty "nodeId" (string signal.node_id)) "awaiting"
            (string signal.awaiting) "nodeId",
        get-insert (P.insert P.empty "nodeId" (string signal.node_id)) "awaiting"
            (string signal.awaiting) "awaiting",
        get-insert (P.insert P.empty "nodeId" (string signal.node_id)) "awaiting"
            (string signal.awaiting) "detail",
        get-insert P.empty "nodeId" (string signal.node_id) "nodeId",
        get-insert P.empty "nodeId" (string signal.node_id) "detail",
        get-empty "detail",
        as_str-string signal.node_id,
        as_str-string signal.awaiting,
      )
