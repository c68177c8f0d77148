-- ===== src/Nodes/Expr/Typed.antt =====
-- A template that is one reference and nothing else.
use fancy_flow_rs.Prelude.{◌≤◌, String, true, false, some, ◌<>◌, ◌≡◌, refl, arith, ltb}
use fancy_flow_rs.Prelude.Scan.{byte_len, trim, contains_text}
use fancy_flow_rs.Prelude.Scan.Finding.{
  free, chars-append, chars-le-byte_len, find-free, strip_prefix-append, strip_suffix-written,
}
use fancy_flow_rs.Platform.{Platform}
use fancy_flow_rs.Executors.Context.{value_or}
use fancy_flow_rs.Nodes.Expr.{inner_text, whole_expression, resolve_path, evaluate, evaluate_text}

abbrev reference : String → String
reference path = "{{" <> path <> "}}"

whole_expression-reference :
    (path : String)
    → free b'{' path ≡ true
    → free b'}' path ≡ true
    → whole_expression (reference path) ≡ some path
unfolding whole_expression contains_text
whole_expression-reference path opens closes =
    let long : 4 ≤ byte_len (reference path) = omega (
      arith,
      chars-le-byte_len (reference path),
      chars-append "{{" (path <> "}}"),
      chars-append path "}}",
    ) in
    let short : ltb (byte_len (reference path)) 4 ≡ false = ground arith in
    rw
      (
        short,
        strip_prefix-append "{{" (path <> "}}"),
        strip_suffix-written path "}" "}" closes,
        inner_text,
      )
      (rw (find-free "}" "}" path closes, find-free "{" "{" path opens, contains_text) refl)

module _ ⦃P : Platform⦄ where
  open P use {Value, null, string, as_str-string}

  -- A text that is one reference, with white space around it or not, evaluates to the value that its
  -- path resolves to, whatever type that has, and to null where the path resolves to nothing.
  pub evaluate-reference :
      (template path : String) (context : Value)
      → trim template ≡ reference path
      → free b'{' path ≡ true
      → free b'}' path ≡ true
      → evaluate (string template) context ≡ value_or (resolve_path path context) null
  unfolding evaluate
  evaluate-reference template path context whole opens closes =
      rw (as_str-string template, evaluate)
        (rw (whole, whole_expression-reference path opens closes, evaluate_text) refl)
