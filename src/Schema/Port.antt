-- ===== src/Schema/Port.antt =====
-- schema/mod.rs: a port as a JSON value.
use fancy_flow_rs.Prelude.{String, none, ◌≡◌}
use fancy_flow_rs.Platform.{Platform}
use fancy_flow_rs.Schema.{PortDescriptor, or_text}
use fancy_flow_rs.Schema.Json.{string_at, put, text_value, get-put, str_of-text_value}

abbrev pub port : String → PortDescriptor
port id = record { id = id; label = none; kind = none }

module _ ⦃P : Platform⦄ where
  open P use {
    Value, Map, string, array, object, as_str, as_array, from_i64, as_i64, empty, insert, get,
    get_in,
  }

  unfoldable pub from_value : Value → PortDescriptor
  unfolding string_at
  from_value raw = record {
    id = or_text (string_at raw "id") "out";
    label = string_at raw "label";
    kind = string_at raw "type";
  }

  unfoldable pub to_map : PortDescriptor → Map
  to_map p =
      put (put (insert empty "id" (string p.id)) "label" (text_value p.label)) "type"
        (text_value p.kind)

  unfoldable pub to_value : PortDescriptor → Value
  unfolding to_map
  to_value p = object (to_map p)

  open P use {as_str-string, get-empty, get-insert, get_in-object}

  -- Reading a port that was written gives the port.
  pub from_value-to_value : (p : PortDescriptor) → from_value (to_value p) ≡ p
  unfolding from_value to_value to_map string_at
  from_value-to_value p =
      simp (get_in-object, get-put, get-insert, get-empty, as_str-string, str_of-text_value)
