-- ===== src/Registry/Builtin.antt =====
-- registry/builtin.rs: the built-in kind `transform`, and the ids that a built-in kind is given.
use fancy_flow_rs.Prelude.{List, [], ◌∷◌, ◌++◌, String, true, false, some, none, ◌<>◌}
use fancy_flow_rs.Platform.{Platform}
use fancy_flow_rs.Schema.{PortDescriptor}
use fancy_flow_rs.Schema.Port.{port}
use fancy_flow_rs.Registry.KindId.{namespace, bare, builtin_aliases, dedup_extend}
use fancy_flow_rs.Registry.Kind.{
  dynamic_emits, FieldSpec, ConfigField, ConfigFields, config_field, no_fields, a_field, NodeKind,
  new_kind,
}

module _ ⦃P : Platform⦄ where
  open P use {Value, Map, string, array, object, empty, insert}

  unfoldable pub canonicalize : NodeKind → NodeKind
  unfolding bare builtin_aliases dedup_extend
  canonicalize kind = record kind {
    name = namespace <> bare kind.name;
    aliases = dedup_extend [] (builtin_aliases (bare kind.name) ++ kind.aliases);
  }

  abbrev pub ports : List String → List PortDescriptor
  ports [] = []
  ports (id ∷ ids) = port id ∷ ports ids

  -- `ConfigField::new`, but for the fields of its rows
  abbrev pub new_field : String → String → String → FieldSpec
  new_field field_type key label = record {
    field_type = field_type;
    key = key;
    label = label;
    required = false;
    default = none;
    description = none;
    options = [];
    min = none;
    max = none;
    step = none;
    placeholder = none;
    example = none;
    credential_type = none;
    rows = none;
    language = none;
    skip_blank_rows = false;
    title_key = none;
    add_label = none;
  }

  abbrev pub blank_transform_row : Value
  blank_transform_row =
      array (object (insert (insert empty "key" (string "")) "value" (string "")) ∷ [])

  abbrev pub mode_field : ConfigField
  mode_field =
      config_field
        (record (new_field "select" "mode" "Build the output") {
          options = ("fields", "Field by field") ∷ ("expression", "One expression") ∷ [];
          default = some (string "fields");
        })
        no_fields

  abbrev pub row_key : FieldSpec
  row_key = record (new_field "text" "key" "Key") { required = true; placeholder = some "name" }

  abbrev pub row_value : FieldSpec
  row_value = record (new_field "expression" "value" "Value") {
    required = true;
    example = some "{{ $json.first }}";
  }

  abbrev pub row_schema : ConfigFields
  row_schema =
      a_field (config_field row_key no_fields)
        (a_field (config_field row_value no_fields) no_fields)

  abbrev pub rows_field : FieldSpec
  rows_field = record (new_field "repeater" "fields" "Output fields") {
    description = some "Each row becomes a key on the result.";
    title_key = some "key";
    add_label = some "Add field";
    skip_blank_rows = true;
    default = some blank_transform_row;
  }

  abbrev pub expression_field : ConfigField
  expression_field =
      config_field
        (record (new_field "expression" "expression" "Expression (advanced)") {
          description = some "Used when the mode above is set to one expression.";
          example = some "{{ { id: $json.id, name: $json.first + ' ' + $json.last } }}";
        })
        no_fields

  abbrev pub transform_schema : ConfigFields
  transform_schema =
      a_field mode_field
        (a_field (config_field rows_field row_schema) (a_field expression_field no_fields))

  unfoldable pub transform_kind : NodeKind
  unfolding canonicalize
  transform_kind = canonicalize (record (new_kind "transform" "logic" "Transform") {
    description = some "Reshape in place.";
    config_schema = transform_schema;
    inputs = some (ports ("in" ∷ []));
    outputs = some (ports ("out" ∷ []));
    emits = some dynamic_emits;
  })
