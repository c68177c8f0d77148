-- ===== src/Runtime/Port.antt =====
-- runtime/ports.rs: the wrappers by which an executor's result names its output ports.
use fancy_flow_rs.Prelude.{List, String, map}
use fancy_flow_rs.Platform.{Platform}

module _ ⦃P : Platform⦄ where
  open P use {Value, Map, string, array, object, empty, insert}

  unfoldable pub only : String → Value → Value
  only port_id value = object (insert (insert empty "__port" (string port_id)) "value" value)

  unfoldable pub branch : String → Value → Value
  branch port_id value = object (insert (insert empty "branch" (string port_id)) "value" value)

  unfoldable pub many : List String → Value → Value
  many port_ids value =
      object (insert (insert empty "__ports" (array (map string port_ids))) "value" value)

  unfoldable pub many_with : Map → Value
  many_with per_port = object (insert empty "__ports" (object per_port))
