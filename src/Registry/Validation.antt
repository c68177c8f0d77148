-- ===== src/Registry/Validation.antt =====
-- registry/mod.rs: what is wrong with a configuration, by the fields of its kind.
use fancy_flow_rs.Prelude.{
  ℕ, ◌+◌, List, [], ◌∷◌, ◌++◌, String, Bool, true, false, not, Option, some, none, if◌then◌else◌,
  ◌==◌, ◌||◌, ◌&&◌, ◌<>◌, any, decimal,
}
use fancy_flow_rs.Prelude.Scan.{is_blank, js_trim}
use fancy_flow_rs.Schema.Json.{list_of, str_of}
use fancy_flow_rs.Platform.{Platform}
use fancy_flow_rs.Registry.Kind.{
  FieldSpec, ConfigField, ConfigFields, no_fields, a_field, spec, row_fields,
}
use fancy_flow_rs.Registry.Catalogue.{NodeKindRegistry, get}

pub record ConfigIssue : Type 0 where
  pub key : String
  pub message : String

module _ ⦃P : Platform⦄ where
  open P use {Value, Map, is_null, as_str, as_array, as_object}

  -- An explicit null is absent.
  abbrev pub is_present : Option Value → Bool
  is_present (some v) = not (is_null v)
  is_present none = false

  abbrev pub blank_text : Bool → FieldSpec → Option String → Bool
  blank_text skip_blank_rows sub (some s) =
      is_blank s || (skip_blank_rows && sub.field_type == "text" && is_blank (js_trim s))
  blank_text skip_blank_rows sub none = false

  unfoldable pub blank : Bool → FieldSpec → Option Value → Bool
  unfolding js_trim
  blank skip_blank_rows sub none = true
  blank skip_blank_rows sub (some v) =
      if is_null v then true else blank_text skip_blank_rows sub (as_str v)

  unfoldable pub all_blank : Bool → ConfigFields → Map → Bool
  unfolding blank
  all_blank skip no_fields row = true
  all_blank skip (a_field sub subs) row =
      blank skip (spec sub) (P.get row (spec sub).key) && all_blank skip subs row

  -- The label of the first required cell that is blank.
  unfoldable pub missing_cell : Bool → ConfigFields → Map → Option String
  unfolding blank
  missing_cell skip no_fields row = none
  missing_cell skip (a_field sub subs) row =
      let rest = missing_cell skip subs row in
      if (spec sub).required && blank skip (spec sub) (P.get row (spec sub).key)
      then some (spec sub).label
      else rest

  abbrev pub row_missing : FieldSpec → ConfigFields → Option Map → Option String
  row_missing field subs none = none
  row_missing field subs (some row) =
      if field.skip_blank_rows && all_blank field.skip_blank_rows subs row
      then none
      else missing_cell field.skip_blank_rows subs row

  unfoldable pub first_row_missing_a_required_cell :
      FieldSpec → ConfigFields → ℕ → List Value → Option String
  unfolding all_blank missing_cell
  first_row_missing_a_required_cell field subs index [] = none
  first_row_missing_a_required_cell field subs index (row ∷ rows) =
      elim (row_missing field subs (as_object row)) [
        | some label ↦
            some
              (field.label <> " item " <> decimal (index + 1) <> ": " <> label <> " is required.")
        | none ↦ first_row_missing_a_required_cell field subs (index + 1) rows
      ]

  abbrev pub issue_of : FieldSpec → Option String → List ConfigIssue
  issue_of field (some message) = record { key = field.key; message = message } ∷ []
  issue_of field none = []

  unfoldable pub rows_problem : FieldSpec → ConfigFields → Option (List Value) → Option String
  unfolding first_row_missing_a_required_cell
  rows_problem field subs (some rows) = first_row_missing_a_required_cell field subs 0 rows
  rows_problem field subs none = none

  abbrev choice_problem : FieldSpec → Option String → Option String
  choice_problem field none = none
  choice_problem field (some chosen) =
      if any (λ (o : String × String). o.0 == chosen) field.options
      then none
      else some ("\"" <> chosen <> "\" is not one of the options for " <> field.label <> ".")

  abbrev is_empty_list : List (String × String) → Bool
  is_empty_list [] = true
  is_empty_list (o ∷ l) = false

  unfoldable pub check_field : Map → ConfigField → List ConfigIssue
  unfolding rows_problem
  check_field config field =
      let s = spec field in
      let found = P.get config s.key in
      if s.required && not (is_present found)
      then issue_of s (some (s.label <> " is required."))
      else if is_present found && s.field_type == "repeater"
      then issue_of s (rows_problem s (row_fields field) (list_of found))
      else if not (is_present found) || is_empty_list s.options
      then []
      else issue_of s (choice_problem s (str_of found))

  unfoldable pub check_fields : Map → ConfigFields → List ConfigIssue
  unfolding check_field
  check_fields config no_fields = []
  check_fields config (a_field field fields) =
      check_field config field ++ check_fields config fields

  unfoldable pub validate_config : NodeKindRegistry → String → Map → List ConfigIssue
  unfolding get check_fields
  validate_config registry kind_id config = elim (get registry kind_id) [
    | some kind ↦ check_fields config kind.config_schema
    | none ↦ []
  ]
