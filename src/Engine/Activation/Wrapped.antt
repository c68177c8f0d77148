-- ===== src/Engine/Activation/Wrapped.antt =====
-- The port wrappers of runtime/ports.rs, read back by the engine.
use fancy_flow_rs.Prelude.{List, [], ◌∷◌, map, String, Option, none, ◌≡◌, refl, arith}
use fancy_flow_rs.Platform.{Platform}
use fancy_flow_rs.Schema.{FlowNode}
use fancy_flow_rs.Registry.Catalogue.{NodeKindRegistry}
use fancy_flow_rs.Runtime.Port.{only, branch, many}
use fancy_flow_rs.Engine.Activation.{
  activated_ports, texts, chosen, single_port, port_subset, branch_port,
}

module _ ⦃P : Platform⦄ where
  open P use {Value, string, as_str-string, as_object-object, as_array-array, get-insert, get-empty}

  texts-map : (l : List String) → texts (map string l) ≡ l
  unfolding texts
  texts-map [] = refl
  texts-map (s ∷ l) = rw (as_str-string s, texts-map l, texts) refl

  activated_ports-only :
      (kinds : Option NodeKindRegistry) (node : FlowNode) (port : String) (v : Value)
      → activated_ports kinds node (only port v)
        ≡ record { ports = port ∷ []; value = v; per_port = none }
  unfolding activated_ports only chosen single_port
  activated_ports-only kinds node port v = ground (
    arith,
    as_object-object (P.insert (P.insert P.empty "__port" (string port)) "value" v),
    get-insert (P.insert P.empty "__port" (string port)) "value" v "__port",
    get-insert (P.insert P.empty "__port" (string port)) "value" v "value",
    get-insert P.empty "__port" (string port) "__port",
    as_str-string port,
  )

  activated_ports-branch :
      (kinds : Option NodeKindRegistry) (node : FlowNode) (port : String) (v : Value)
      → activated_ports kinds node (branch port v)
        ≡ record { ports = port ∷ []; value = v; per_port = none }
  unfolding activated_ports branch chosen single_port port_subset branch_port
  activated_ports-branch kinds node port v =
      let m = P.insert P.empty "branch" (string port) in
      ground (
        arith,
        as_object-object (P.insert m "value" v),
        get-insert m "value" v "__port",
        get-insert m "value" v "__ports",
        get-insert m "value" v "branch",
        get-insert m "value" v "value",
        get-insert P.empty "branch" (string port) "__port",
        get-insert P.empty "branch" (string port) "__ports",
        get-insert P.empty "branch" (string port) "branch",
        get-empty "__port",
        get-empty "__ports",
        as_str-string port,
      )

  activated_ports-many :
      (kinds : Option NodeKindRegistry) (node : FlowNode) (ports : List String) (v : Value)
      → activated_ports kinds node (many ports v)
        ≡ record { ports = ports; value = v; per_port = none }
  unfolding activated_ports many chosen single_port port_subset
  activated_ports-many kinds node ports v =
      let list = P.array (map string ports) in
      let m = P.insert P.empty "__ports" list in
      ground (
        arith,
        as_object-object (P.insert m "value" v),
        get-insert m "value" v "__port",
        get-insert m "value" v "__ports",
        get-insert m "value" v "value",
        get-insert P.empty "__ports" list "__port",
        get-insert P.empty "__ports" list "__ports",
        get-empty "__port",
        as_array-array (map string ports),
        texts-map ports,
      )

  -- A result wrapped by `only` or `branch` activates the one port that it names, one wrapped by `many`
  -- the ports that it lists, in their order; each carries the wrapped value on them, whatever ports
  -- the node or its kind declare.
  pub activated_ports-wrapped :
      (kinds : Option NodeKindRegistry) (node : FlowNode) (port : String) (ports : List String)
      (v : Value)
      → (activated_ports kinds node (only port v)
          ≡ record { ports = port ∷ []; value = v; per_port = none })
        × (activated_ports kinds node (branch port v)
            ≡ record { ports = port ∷ []; value = v; per_port = none })
        × (activated_ports kinds node (many ports v)
            ≡ record { ports = ports; value = v; per_port = none })
  activated_ports-wrapped kinds node port ports v = (
    activated_ports-only kinds node port v,
    activated_ports-branch kinds node port v,
    activated_ports-many kinds node ports v,
  )
