-- ===== src/Registry/Document.antt =====
-- registry/node_kind.rs and registry/mod.rs: kinds as entries of the catalogue document.
use fancy_flow_rs.Prelude.{
  List, [], ◌∷◌, map, String, Bool, true, false, Option, some, none, if◌then◌else◌, ◌≡◌, refl, ap,
  inl, inr, sym, ap₂, Bool-cases,
}
use fancy_flow_rs.Platform.{Platform}
use fancy_flow_rs.Schema.{PortDescriptor, or_text}
use fancy_flow_rs.Schema.Json.{
  string_at, put, text_value, int_value, list_of, map_of, map_or_empty, strings, first, get-put,
  str_of-text_value, strings-map,
}
use fancy_flow_rs.Schema.Port.{to_value, from_value, from_value-to_value}
use fancy_flow_rs.Registry.Kind.{
  FieldSpec, ConfigField, ConfigFields, config_field, no_fields, a_field, NodeKind, new_kind,
}
use fancy_flow_rs.Registry.Catalogue.{NodeKindRegistry}

module _ ⦃P : Platform⦄ where
  open P use {
    Value, Map, Float, string, bool, array, object, as_str, as_array, as_object, from_f64, empty,
    insert, is_empty, get, get_in,
  }

  abbrev pub flag_value : Bool → Option Value
  flag_value true = some (bool true)
  flag_value false = none

  abbrev pub float_value : Option Float → Option Value
  float_value (some x) = some (from_f64 x)
  float_value none = none

  -- A list that is empty is not written.
  abbrev pub filled_array : List Value → Option Value
  filled_array [] = none
  filled_array (v ∷ l) = some (array (v ∷ l))

  abbrev pub option_value : String × String → Value
  option_value (value, label) =
      object (insert (insert empty "value" (string value)) "label" (string label))

  abbrev put_texts : Map → List (String × Option String) → Map
  put_texts m [] = m
  put_texts m ((key, s) ∷ l) = put_texts (put m key (text_value s)) l

  abbrev put_floats : Map → List (String × Option Float) → Map
  put_floats m [] = m
  put_floats m ((key, x) ∷ l) = put_floats (put m key (float_value x)) l

  -- The entry of a field, but for the fields of its rows.
  unfoldable pub spec_map : FieldSpec → Map
  spec_map s =
      let named =
        insert (insert (insert empty "type" (string s.field_type)) "key" (string s.key)) "label"
          (string s.label) in
      let defaulted = put (put named "required" (flag_value s.required)) "default" s.default in
      let told = put_texts defaulted (
        ("description", s.description)
        ∷ ("placeholder", s.placeholder)
        ∷ ("example", s.example)
        ∷ ("credentialType", s.credential_type)
        ∷ ("language", s.language)
        ∷ ("titleKey", s.title_key)
        ∷ ("addLabel", s.add_label)
        ∷ []) in
      let bounded = put_floats told (("min", s.min) ∷ ("max", s.max) ∷ ("step", s.step) ∷ []) in
      put
        (put (put bounded "rows" (int_value s.rows)) "options"
          (filled_array (map option_value s.options)))
        "skipBlankRows" (flag_value s.skip_blank_rows)

  unfoldable mutual
    unfolding spec_map

    pub field_value : ConfigField → Value
    field_value (config_field s rows) =
        object (put (spec_map s) "fields" (filled_array (field_values rows)))

    pub field_values : ConfigFields → List Value
    field_values no_fields = []
    field_values (a_field field fields) = field_value field ∷ field_values fields

  abbrev pub ports_value : Option (List PortDescriptor) → Option Value
  ports_value (some ports) = some (array (map to_value ports))
  ports_value none = none

  abbrev pub config_value : Map → Option Value
  config_value config = if is_empty config then none else some (object config)

  unfoldable pub kind_map : NodeKind → Map
  unfolding field_values to_value
  kind_map kind =
      let named =
        insert (insert (insert empty "name" (string kind.name)) "category" (string kind.category))
          "label" (string kind.label) in
      let told =
        put
          (put (put named "description" (text_value kind.description)) "icon"
            (text_value kind.icon))
          "accent" (text_value kind.accent) in
      let configured =
        put (put told "configSchema" (filled_array (field_values kind.config_schema)))
          "defaultConfig" (config_value kind.default_config) in
      let wired =
        put (put configured "inputs" (ports_value kind.inputs)) "outputs"
          (ports_value kind.outputs) in
      put
        (put (put wired "aliases" (filled_array (map string kind.aliases))) "pausesForHuman"
          (text_value kind.pauses_for_human))
        "sideEffects" (text_value kind.side_effects)

  unfoldable pub kind_value : NodeKind → Value
  unfolding kind_map
  kind_value kind = object (kind_map kind)

  -- `NodeKindRegistry::to_value`
  unfoldable pub catalogue_value : NodeKindRegistry → Value
  unfolding kind_value
  catalogue_value registry = array (map kind_value registry.kinds)

  abbrev ports_of : Option (List Value) → Option (List PortDescriptor)
  ports_of (some items) = some (map from_value items)
  ports_of none = none

  unfoldable pub ports_at : Value → String → Option (List PortDescriptor)
  unfolding from_value
  ports_at raw key = ports_of (list_of (get_in raw key))

  abbrev strings_or_none : Option (List Value) → List String
  strings_or_none (some l) = strings l
  strings_or_none none = []

  abbrev read_kind : Value → String → NodeKind
  unfolding string_at ports_at
  read_kind raw name =
      record (new_kind name (or_text (string_at raw "category") "custom")
        (or_text (string_at raw "label") name)) {
          description = string_at raw "description";
          icon = string_at raw "icon";
          accent = string_at raw "accent";
          pauses_for_human = string_at raw "pausesForHuman";
          side_effects = string_at raw "sideEffects";
          default_config = map_or_empty (map_of (get_in raw "defaultConfig"));
          inputs = ports_at raw "inputs";
          outputs = ports_at raw "outputs";
          aliases = strings_or_none (list_of (get_in raw "aliases"));
        }

  -- `NodeKind::from_value`. The fields of the configuration are not read.
  unfoldable pub kind_from_value : Value → Option NodeKind
  unfolding string_at read_kind
  kind_from_value raw = elim (string_at raw "name") [
    | some name ↦ some (read_kind raw name)
    | none ↦ none
  ]

  ports_back :
      (ports : Option (List PortDescriptor))
      → ports_of (list_of (first (ports_value ports) none)) ≡ ports
  ports_back none = refl
  ports_back (some ports) = rw (P.as_array-array (map to_value ports)) (ap some (each ports))
    where
      each : (l : List PortDescriptor) → map from_value (map to_value l) ≡ l
      each [] = refl
      each (p ∷ l) = ap₂ (λ q r. q ∷ r) (from_value-to_value p) (each l)

  aliases_back :
      (l : List String) → strings_or_none (list_of (first (filled_array (map string l)) none)) ≡ l
  aliases_back [] = refl
  aliases_back (s ∷ l) = rw (P.as_array-array (string s ∷ map string l)) (strings-map (s ∷ l))

  config_back : (config : Map) → map_or_empty (map_of (first (config_value config) none)) ≡ config
  config_back config = elim (Bool-cases (is_empty config)) [
    | inl none_left ↦ rw none_left (sym (P.eq-empty config none_left))
    | inr some_left ↦ rw some_left (rw (P.as_object-object config) refl)
  ]

  kind_name : (kind : NodeKind) → string_at (kind_value kind) "name" ≡ some kind.name
  unfolding string_at kind_value kind_map
  kind_name kind = simp (P.get_in-object, get-put, P.get-insert, P.as_str-string)

  read_kind-kind_value :
      (kind : NodeKind)
      → read_kind (kind_value kind) kind.name
        ≡ record kind { config_schema = no_fields; output_shape = none; emits = none }
  unfolding read_kind kind_value kind_map string_at ports_at
  read_kind-kind_value kind = simp (
    P.get_in-object, get-put, P.get-insert, P.get-empty, P.as_str-string, str_of-text_value,
    ports_back, aliases_back, config_back,
  )

  -- A kind that is read from its own entry is the kind without what the reader leaves out: the fields
  -- of its configuration, which the entry has, and the fields that it emits and their relation to its
  -- input, which the entry has not. A list of ports that is empty is not taken for one that is absent.
  pub kind_from_value-kind_value :
      (kind : NodeKind)
      → kind_from_value (kind_value kind)
        ≡ some (record kind { config_schema = no_fields; output_shape = none; emits = none })
  unfolding kind_from_value
  kind_from_value-kind_value kind =
      rw (kind_name kind, kind_from_value) (ap some (read_kind-kind_value kind))
