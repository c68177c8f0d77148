-- ===== src/Schema/Metadata.antt =====
-- schema/mod.rs: the metadata of a workflow as a JSON value.
use fancy_flow_rs.Prelude.{ℤ, List, String, Option, ◌≡◌}
use fancy_flow_rs.Platform.{Platform}
use fancy_flow_rs.Schema.Json.{
  string_at, put, text_value, int_value, int_of, list_of, strings_of, array_of, get-put,
  str_of-text_value, int_of-int_value, strings_of-array_of,
}

pub record WorkflowMetadata : Type 0 where
  pub id : Option String
  pub name : Option String
  pub description : Option String
  pub created_at : Option ℤ
  pub updated_at : Option ℤ
  pub author : Option String
  pub tags : Option (List String)

module _ ⦃P : Platform⦄ where
  open P use {
    Value, Map, string, array, object, as_str, as_array, from_i64, as_i64, empty, insert, get,
    get_in,
  }

  unfoldable pub from_value : Value → WorkflowMetadata
  unfolding string_at
  from_value raw = record {
    id = string_at raw "id";
    name = string_at raw "name";
    description = string_at raw "description";
    created_at = int_of (get_in raw "createdAt");
    updated_at = int_of (get_in raw "updatedAt");
    author = string_at raw "author";
    tags = strings_of (list_of (get_in raw "tags"));
  }

  unfoldable pub to_map : WorkflowMetadata → Map
  to_map m =
      put
        (put
          (put
            (put
              (put (put (put empty "id" (text_value m.id)) "name" (text_value m.name)) "description"
                (text_value m.description))
              "createdAt" (int_value m.created_at))
            "updatedAt" (int_value m.updated_at))
          "author" (text_value m.author))
        "tags" (array_of m.tags)

  unfoldable pub to_value : WorkflowMetadata → Value
  unfolding to_map
  to_value m = object (to_map m)

  open P use {get-empty, get_in-object}

  -- Reading metadata that were written gives the metadata, each field that is absent read as absent.
  pub from_value-to_value : (m : WorkflowMetadata) → from_value (to_value m) ≡ m
  unfolding from_value to_value to_map string_at
  from_value-to_value m =
      simp (
        get_in-object, get-put, get-empty, str_of-text_value, int_of-int_value, strings_of-array_of,
      )
