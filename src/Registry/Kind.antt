-- ===== src/Registry/Kind.antt =====
-- registry/node_kind.rs: a node kind, and the fields of its configuration.
use fancy_flow_rs.Prelude.{ℤ, List, [], ◌∷◌, String, Bool, Option, some, none}
use fancy_flow_rs.Platform.{Platform}
use fancy_flow_rs.Schema.{PortDescriptor}
use fancy_flow_rs.Registry.KindId.{dedup_extend}

pub record OutputField : Type 0 where
  pub path : String
  pub kind : Option String
  pub description : Option String

pub data OutputShape : Type 0 where
  fields : List OutputField → OutputShape
  dynamic : OutputShape

pub data EmitsRelation : Type 0 where
  input : EmitsRelation
  inputs_merged : EmitsRelation
  input_map_merged : EmitsRelation
  expression : String → EmitsRelation
  dynamic_emits : EmitsRelation

module _ ⦃P : Platform⦄ where
  open P use {Value, Map, Float, get, insert}

  -- A field of a configuration, but the fields of its rows.
  pub record FieldSpec : Type 0 where
    pub field_type : String
    pub key : String
    pub label : String
    pub required : Bool
    pub default : Option Value
    pub description : Option String
    pub options : List (String × String)
    pub min : Option Float
    pub max : Option Float
    pub step : Option Float
    pub placeholder : Option String
    pub example : Option String
    pub credential_type : Option String
    pub rows : Option ℤ
    pub language : Option String
    pub skip_blank_rows : Bool
    pub title_key : Option String
    pub add_label : Option String

  mutual
    pub data ConfigField : Type 0 where
      config_field : FieldSpec → ConfigFields → ConfigField

    pub data ConfigFields : Type 0 where
      no_fields : ConfigFields
      a_field : ConfigField → ConfigFields → ConfigFields

  abbrev pub spec : ConfigField → FieldSpec
  spec (config_field s rows) = s

  abbrev pub row_fields : ConfigField → ConfigFields
  row_fields (config_field s rows) = rows

  pub record NodeKind : Type 0 where
    pub name : String
    pub category : String
    pub label : String
    pub description : Option String
    pub icon : Option String
    pub accent : Option String
    pub config_schema : ConfigFields
    pub default_config : Map
    pub inputs : Option (List PortDescriptor)
    pub outputs : Option (List PortDescriptor)
    pub aliases : List String
    pub pauses_for_human : Option String
    pub side_effects : Option String
    pub output_shape : Option OutputShape
    pub emits : Option EmitsRelation

  -- `NodeKind::new`
  abbrev pub new_kind : String → String → String → NodeKind
  new_kind name category label = record {
    name = name;
    category = category;
    label = label;
    description = none;
    icon = none;
    accent = none;
    config_schema = no_fields;
    default_config = P.empty;
    inputs = none;
    outputs = none;
    aliases = [];
    pauses_for_human = none;
    side_effects = none;
    output_shape = none;
    emits = none;
  }

  unfoldable pub output_fields : NodeKind → Option (List OutputField)
  output_fields kind = elim kind.output_shape [
    | some (fields fs) ↦ some fs
    | some dynamic ↦ none
    | none ↦ none
  ]

  unfoldable pub expression_config_key : NodeKind → Option String
  expression_config_key kind = elim kind.emits [
    | some (expression key) ↦ some key
    | some input ↦ none
    | some inputs_merged ↦ none
    | some input_map_merged ↦ none
    | some dynamic_emits ↦ none
    | none ↦ none
  ]

  -- The name, then the aliases that are not listed yet.
  unfoldable pub ids : NodeKind → List String
  unfolding dedup_extend
  ids kind = dedup_extend (kind.name ∷ []) kind.aliases

  abbrev insert_default : Map → FieldSpec → Option Value → Map
  insert_default config field none = config
  insert_default config field (some default) = elim (get config field.key) [
    | some _ ↦ config
    | none ↦ insert config field.key default
  ]

  unfoldable pub fill_defaults : Map → ConfigFields → Map
  fill_defaults config no_fields = config
  fill_defaults config (a_field field others) =
      fill_defaults (insert_default config (spec field) (spec field).default) others

  unfoldable pub resolved_default_config : NodeKind → Map
  unfolding fill_defaults
  resolved_default_config kind = fill_defaults kind.default_config kind.config_schema
