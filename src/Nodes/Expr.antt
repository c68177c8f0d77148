-- ===== src/Nodes/Expr.antt =====
-- nodes/support/expr.rs: templates with references `{{ path }}`, and truthiness.
pub mod Interpolation
pub mod Typed
use fancy_flow_rs.Prelude.{
  ℕ, zero, suc, List, [], ◌∷◌, String, Bool, true, false, not, Option, some, none, if◌then◌else◌,
  ◌==◌, ◌||◌, ◌&&◌, ◌<>◌, ltb, nat_beq, any, pos_part, neg_part, strip_prefix, display, decimal,
  get_elem?, ℤ,
}
use fancy_flow_rs.Prelude.Scan.{
  chars, byte_len, is_blank, trim, find, contains_text, strip_suffix, split, to_ascii_lowercase,
  parse_usize,
}
use fancy_flow_rs.Platform.{Platform, Number, pos_int, neg_int, float}
use fancy_flow_rs.Platform.{View}
use fancy_flow_rs.Executors.Context.{value_or}

abbrev falsy_strings : List String
falsy_strings = "" ∷ "0" ∷ "false" ∷ "no" ∷ "off" ∷ "null" ∷ []

-- The inner text of a template that is one reference and nothing else.
abbrev inner_text : Option String → Option String
inner_text (some inner) =
    if contains_text inner "}}" || contains_text inner "{{" then none else some inner
inner_text none = none

abbrev strip_braces : Option String → Option String
strip_braces (some rest) = strip_suffix rest "}}"
strip_braces none = none

unfoldable pub whole_expression : String → Option String
unfolding contains_text strip_prefix strip_suffix
whole_expression trimmed =
    if ltb (byte_len trimmed) 4 then none else inner_text (strip_braces (strip_prefix trimmed "{{"))

module _ ⦃P : Platform⦄ where
  open P use {
    Value, Map, Float, is_zero, display_float, null, string, object, view, as_str, get, get_in,
    to_string, is_empty,
  }

  abbrev number_is_zero : Number Float → Bool
  number_is_zero (pos_int n) = nat_beq n 0
  number_is_zero (neg_int z) = nat_beq (pos_part z) 0 && nat_beq (neg_part z) 0
  number_is_zero (float x) = is_zero x

  unfoldable pub number_text : Number Float → String
  unfolding display decimal
  number_text (pos_int n) = decimal n
  number_text (neg_int z) = display z
  number_text (float x) = if is_zero x then "0" else display_float x

  -- Truthiness, by PHP's rules.
  unfoldable pub truthy : Value → Bool
  unfolding trim to_ascii_lowercase
  truthy value = elim (view value) [
    | View.null ↦ false
    | View.bool flag ↦ flag
    | View.string text ↦ not (any (λ s. s == to_ascii_lowercase (trim text)) falsy_strings)
    | View.array [] ↦ false
    | View.array (v ∷ l) ↦ true
    | View.object m ↦ not (is_empty m)
    | View.number n ↦ not (number_is_zero n)
  ]

  -- A value as interpolation writes it.
  unfoldable pub text : Option Value → String
  unfolding number_text
  text none = ""
  text (some value) = elim (view value) [
    | View.null ↦ ""
    | View.bool true ↦ "true"
    | View.bool false ↦ "false"
    | View.string s ↦ s
    | View.number n ↦ number_text n
    | View.array l ↦ to_string value
    | View.object m ↦ to_string value
  ]

  abbrev item_at : List Value → Option ℕ → Option Value
  item_at items (some index) = get_elem? items index
  item_at items none = none

  unfoldable pub step : Value → String → Option Value
  unfolding parse_usize
  step cursor segment = elim (view cursor) [
    | View.object m ↦ get m segment
    | View.array items ↦ item_at items (parse_usize segment)
    | View.null ↦ none
    | View.bool b ↦ none
    | View.string s ↦ none
    | View.number n ↦ none
  ]

  unfoldable pub walk : Option Value → List String → Option Value
  unfolding step
  walk cursor [] = cursor
  walk none (segment ∷ segments) = none
  walk (some cursor) (segment ∷ segments) = walk (step cursor segment) segments

  -- `$json` and `$input` stand for the port `in`, or for the whole context where there is none.
  unfoldable pub first_segment : Value → String → Option Value
  unfolding step
  first_segment context first =
      if first == "$json" || first == "$input"
      then some (value_or (get_in context "in") context)
      else step context first

  unfoldable pub resolve_segments : Value → List String → Option Value
  unfolding walk first_segment
  resolve_segments context [] = none
  resolve_segments context (first ∷ segments) = walk (first_segment context first) segments

  unfoldable pub resolve_path : String → Value → Option Value
  unfolding trim split resolve_segments first_segment
  resolve_path path context =
      if is_blank (trim path) then none else resolve_segments context (split (trim path) b'.')

  -- One round reads one reference; each takes at least the four braces off the text.
  unfoldable pub interpolate_from : ℕ → String → Value → String
  unfolding find text resolve_path
  interpolate_from zero rest context = rest
  interpolate_from (suc fuel) rest context = elim (find rest "{{") [
    | none ↦ rest
    | some (before, opened) ↦ elim (find opened "}}") [
      | none ↦ rest
      | some (path, behind) ↦
          before <> text (resolve_path path context) <> interpolate_from fuel behind context
    ]
  ]

  unfoldable pub interpolate : String → Value → String
  unfolding interpolate_from
  interpolate template context = interpolate_from (suc (chars template)) template context

  unfoldable pub evaluate_text : String → Value → Value
  unfolding trim whole_expression interpolate resolve_path
  evaluate_text template context = elim (whole_expression (trim template)) [
    | some inner ↦ value_or (resolve_path inner context) null
    | none ↦ string (interpolate template context)
  ]

  unfoldable pub evaluate : Value → Value → Value
  unfolding evaluate_text
  evaluate template context = elim (as_str template) [
    | some s ↦ evaluate_text s context
    | none ↦ template
  ]

  unfoldable pub evaluate_in : Option Value → Map → Value
  unfolding evaluate
  evaluate_in (some template) inputs = evaluate template (object inputs)
  evaluate_in none inputs = null
