-- ===== src/Nodes/Shaping/Admitted.antt =====
-- nodes/logic.rs and registry/mod.rs: the rows that validation admits and those that `transform` writes.
use mathlib.Core.List.{Memᴰ}
use mathlib.Core.List.Memᴰ
use fancy_flow_rs.Prelude.{
  ℕ, ◌+◌, List, [], ◌∷◌, ◌++◌, String, true, false, Option, some, none, ◌≡◌, ◌⊎◌, inl, inr, refl,
  sym, ◌∙◌, ap, subst, Bool-cases, Option-cases, arith,
}
use fancy_flow_rs.Prelude.Scan.{is_blank, js_trim}
use fancy_flow_rs.Platform.{Platform, View, view_text, view_list, view_null}
use fancy_flow_rs.Registry.Kind.{FieldSpec, ConfigFields, config_field, no_fields, a_field}
use fancy_flow_rs.Registry.Catalogue.{NodeKindRegistry, get}
use fancy_flow_rs.Registry.Builtin.{
  row_key, row_schema, rows_field, mode_field, expression_field, transform_schema, transform_kind,
}
use fancy_flow_rs.Registry.Validation.{
  ConfigIssue, blank, all_blank, missing_cell, row_missing, first_row_missing_a_required_cell,
  issue_of, rows_problem, check_field, check_fields, validate_config,
}
use fancy_flow_rs.Executors.Context.{value_or}
use fancy_flow_rs.Nodes.Shaping.{rows_in, transform_row, rows_of, transform_rows}

append-nil-right : (l l' : List ConfigIssue) → l ++ l' ≡ [] → l' ≡ []
append-nil-right [] l' e = e
append-nil-right (x ∷ l) l' e = absurd (cc)

append-nil-left : (l l' : List ConfigIssue) → l ++ l' ≡ [] → l ≡ []
append-nil-left [] l' e = refl
append-nil-left (x ∷ l) l' e = absurd (cc)

Mem-append : {A : Type 0} (x : A) (l l' : List A) → Memᴰ x l' → Memᴰ x (l ++ l')
Mem-append x [] l' m = m
Mem-append x (y ∷ l) l' m = Memᴰ.tail (Mem-append x l l' m)

Mem-append_left : {A : Type 0} (x : A) (l l' : List A) → Memᴰ x l → Memᴰ x (l ++ l')
Mem-append_left x [] l' m = elim m [ ]
Mem-append_left x (y ∷ l) l' m = elim (Memᴰ.cases_cons m) [
  | inl same ↦ Memᴰ.head same
  | inr rest ↦ Memᴰ.tail (Mem-append_left x l l' rest)
]

module _ ⦃P : Platform⦄ where
  open P use {Value, Map, view, is_null, as_str, as_array, as_object, null}

  text-not_null : (v : Value) (s : String) → as_str v ≡ some s → is_null v ≡ false
  text-not_null v s e = P.is_null-view v ∙ by_view (view v) (sym (P.as_str-view v) ∙ e)
    where
      by_view : (seen : View Value Map P.Float) → view_text seen ≡ some s → view_null seen ≡ false
      by_view View.null h = absurd (cc)
      by_view (View.bool b) h = refl
      by_view (View.number n) h = refl
      by_view (View.string t) h = refl
      by_view (View.array l) h = refl
      by_view (View.object m) h = refl

  list-not_null : (v : Value) (l : List Value) → as_array v ≡ some l → is_null v ≡ false
  list-not_null v l e = P.is_null-view v ∙ by_view (view v) (sym (P.as_array-view v) ∙ e)
    where
      by_view : (seen : View Value Map P.Float) → view_list seen ≡ some l → view_null seen ≡ false
      by_view View.null h = absurd (cc)
      by_view (View.bool b) h = refl
      by_view (View.number n) h = refl
      by_view (View.string t) h = refl
      by_view (View.array l) h = refl
      by_view (View.object m) h = refl

  no_issue :
      (field : FieldSpec) (problem : Option String) → issue_of field problem ≡ [] → problem ≡ none
  no_issue field none e = refl
  no_issue field (some message) e = absurd (cc)

  -- In rows without a problem no row has one.
  rows_missing :
      (field : FieldSpec) (subs : ConfigFields) (n : ℕ) (rows : List Value) (item : Value)
      → first_row_missing_a_required_cell field subs n rows ≡ none
      → Memᴰ item rows
      → row_missing field subs (as_object item) ≡ none
  unfolding first_row_missing_a_required_cell
  rows_missing field subs n [] item e m = elim m [ ]
  rows_missing field subs n (row ∷ rows) item e m =
      elim (Option-cases (row_missing field subs (as_object row))) [
        | inr (label, found) ↦ absurd (ground arith)
        | inl clean ↦ elim (Memᴰ.cases_cons m) [
          | inl same ↦ subst (λ v. row_missing field subs (as_object v) ≡ none) (sym same) clean
          | inr rest ↦ rows_missing field subs (n + 1) rows item (ground arith) rest
        ]
      ]

  -- A cell with a text of its own is not blank.
  cell_trims :
      (row : Map) (cell : Value) (key : String)
      → P.get row "key" ≡ some cell
      → as_str cell ≡ some key
      → blank true row_key (P.get row "key") ≡ is_blank (js_trim key)
  unfolding blank
  cell_trims row cell String.[] e h = rw e (rw (text-not_null cell "" h) (rw h refl))
  cell_trims row cell (String.◌∷◌ c key) e h =
      rw e (rw (text-not_null cell (String.◌∷◌ c key) h) (rw h refl))

  row_admitted :
      (row : Map) (cell : Value) (key : String)
      → P.get row "key" ≡ some cell
      → as_str cell ≡ some key
      → row_missing rows_field row_schema (some row) ≡ none
      → (all_blank true row_schema row ≡ true) ⊎ (is_blank (js_trim key) ≡ false)
  unfolding missing_cell
  row_admitted row cell key e h clean = elim (Bool-cases (all_blank true row_schema row)) [
    | inl placeholder ↦ inl placeholder
    | inr filled ↦ inr (sym (cell_trims row cell key e h) ∙ has_key filled)
  ]
    where
      has_key : all_blank true row_schema row ≡ false → blank true row_key (P.get row "key") ≡ false
      has_key filled = elim (Bool-cases (blank true row_key (P.get row "key"))) [
        | inr full ↦ full
        | inl empty ↦ absurd (ground arith)
      ]

  row_written :
      (row : Map) (cell : Value) (key : String)
      → P.get row "key" ≡ some cell
      → as_str cell ≡ some key
      → is_blank (js_trim key) ≡ false
      → transform_row (some row) ≡ (js_trim key, value_or (P.get row "value") null) ∷ []
  unfolding transform_row
  row_written row cell key e h full = rw e (rw h (rw full refl))

  rows_of-Mem :
      (rows : List Value) (item : Value) (row : Map) (write : String × Value)
      → Memᴰ item rows
      → as_object item ≡ some row
      → transform_row (some row) ≡ write ∷ []
      → Memᴰ write (rows_of rows)
  unfolding rows_of
  rows_of-Mem [] item row write m e w = elim m [ ]
  rows_of-Mem (first ∷ rows) item row write m e w = elim (Memᴰ.cases_cons m) [
    | inl same ↦ Mem-append_left write (transform_row (as_object first)) (rows_of rows) (
        subst (Memᴰ write) (sym (ap transform_row (ap as_object (sym same) ∙ e) ∙ w))
          (Memᴰ.head refl))
    | inr rest ↦
        Mem-append write (transform_row (as_object first)) (rows_of rows)
          (rows_of-Mem rows item row write rest e w)
  ]

  check_rows :
      (config : Map) (fields : Value) (rows : List Value)
      → P.get config "fields" ≡ some fields
      → as_array fields ≡ some rows
      → check_field config (config_field rows_field row_schema)
        ≡ issue_of rows_field (first_row_missing_a_required_cell rows_field row_schema 0 rows)
  unfolding check_field rows_problem
  check_rows config fields rows e l = rw e (rw (list-not_null fields rows l) (rw l refl))

  rows_accepted :
      (config : Map) (fields : Value) (rows : List Value)
      → P.get config "fields" ≡ some fields
      → as_array fields ≡ some rows
      → check_fields config transform_schema ≡ []
      → first_row_missing_a_required_cell rows_field row_schema 0 rows ≡ none
  unfolding check_fields check_field
  rows_accepted config fields rows e l accepted =
      let second : check_fields config
            (a_field (config_field rows_field row_schema) (a_field expression_field no_fields))
          ≡ [] =
        append-nil-right (check_field config mode_field) _ accepted in
      let here : check_field config (config_field rows_field row_schema) ≡ [] =
        append-nil-left (check_field config (config_field rows_field row_schema)) _ second in
      no_issue rows_field _ (sym (check_rows config fields rows e l) ∙ here)

  -- Where the configuration of a `transform` node passes validation, every row of its list that is an
  -- object with a text under `key` either is a placeholder, whose every cell is blank, or is written:
  -- its value stands among the rows that `transform` writes, under the trimmed key.
  pub transform_rows-validate_config :
      (registry : NodeKindRegistry) (kind_id : String) (config : Map) (fields : Value)
      (rows : List Value) (item : Value) (row : Map) (cell : Value) (key : String)
      → get registry kind_id ≡ some transform_kind
      → validate_config registry kind_id config ≡ []
      → P.get config "fields" ≡ some fields
      → as_array fields ≡ some rows
      → Memᴰ item rows
      → as_object item ≡ some row
      → P.get row "key" ≡ some cell
      → as_str cell ≡ some key
      → (all_blank true row_schema row ≡ true)
        ⊎ Memᴰ (js_trim key, value_or (P.get row "value") null) (transform_rows config)
  unfolding validate_config transform_rows transform_kind
  transform_rows-validate_config registry kind_id config fields rows item row cell key found
        accepted e l m o k s =
      let clean = rows_accepted config fields rows e l (rw (found, validate_config) at accepted) in
      let missing = rows_missing rows_field row_schema 0 rows item clean m in
      elim (row_admitted row cell key k s (rw o at missing)) [
        | inl placeholder ↦ inl placeholder
        | inr full ↦ inr (
            rw e (
              rw (l, rows_in)
                (rows_of-Mem rows item row (js_trim key, value_or (P.get row "value") null) m o
                  (row_written row cell key k s full))))
      ]
