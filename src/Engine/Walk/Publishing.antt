-- ===== src/Engine/Walk/Publishing.antt =====
-- What publishing a result leaves in the walk's values.
use fancy_flow_rs.Prelude.{
  List, [], ◌∷◌, String, Bool, some, if◌then◌else◌, ◌==◌, ◌≡◌, inl, inr, refl, arith, eq_iff,
  eq_refl, ==-cases, ne→==-false, ◌<>◌,
}
use text.Mathlib.TextLemmas.{append_cancel_left}
use fancy_flow_rs.Prelude.BTreeMap
use fancy_flow_rs.Prelude.BTreeMap.{BTreeMap, get-insert}
use fancy_flow_rs.Platform.{Platform}
use fancy_flow_rs.Schema.{FlowNode}
use fancy_flow_rs.Registry.KindId.{contains}
use fancy_flow_rs.Engine.Activation.{Activation, activated_ports}
use fancy_flow_rs.Engine.Walk.{Setup, Walk, publish, publish_ports, publish_port, port_key, carried}

-- One node's ports have keys of their own.
port_key-cancel : (id p q : String) → port_key id p ≡ port_key id q → p ≡ q
unfolding port_key
port_key-cancel id p q e =
    append_cancel_left ":" p q (append_cancel_left id (":" <> p) (":" <> q) e)

port_key-test : (id p q : String) → (port_key id p == port_key id q) ≡ (p == q)
port_key-test id p q = elim (==-cases p q) [
  | inl (same, e) ↦ rw e (rw same (eq_refl (port_key id q)))
  | inr (other, e) ↦
      rw e (ne→==-false (port_key id p) (port_key id q) (λ k. other (port_key-cancel id p q k)))
]

module _ ⦃P : Platform⦄ where
  open P use {Value}

  get-publish_ports :
      (a : Activation) (id : String) (ports : List String) (walk : Walk) (port : String)
      → BTreeMap.get (publish_ports a id ports walk).port_values (port_key id port) ≡ (
          if contains ports port
          then some (carried a port)
          else BTreeMap.get walk.port_values (port_key id port))
  unfolding publish_ports publish_port contains
  get-publish_ports a id [] walk port = refl
  get-publish_ports a id (p ∷ ports) walk port = ground (
    arith,
    get-publish_ports a id ports (publish_port a id p walk) port,
    get-insert walk.port_values (port_key id p) (carried a p) (port_key id port),
    port_key-test id p port,
    eq_iff p port,
  )

  publish_ports_outputs :
      (a : Activation) (id : String) (ports : List String) (walk : Walk)
      → (publish_ports a id ports walk).outputs ≡ walk.outputs
  unfolding publish_ports publish_port
  publish_ports_outputs a id [] walk = refl
  publish_ports_outputs a id (p ∷ ports) walk =
      publish_ports_outputs a id ports (publish_port a id p walk)

  -- After a result of a node is published, each port of the node that the result activates holds what
  -- the result carries on it, each other port of the node holds what it held before, and the outputs
  -- have the result as it was returned.
  pub get-publish :
      (s : Setup) (node : FlowNode) (result : Value) (resumed : Bool) (walk : Walk) (port : String)
      → (BTreeMap.get (publish s node result resumed walk).port_values (port_key node.id port) ≡ (
          if contains (activated_ports s.kinds node result).ports port
          then some (carried (activated_ports s.kinds node result) port)
          else BTreeMap.get walk.port_values (port_key node.id port)))
        × (BTreeMap.get (publish s node result resumed walk).outputs node.id ≡ some result)
  unfolding publish
  get-publish s node result resumed walk port =
      let a = activated_ports s.kinds node result in
      let given = record walk { outputs = BTreeMap.insert walk.outputs node.id result } in
      (
        get-publish_ports a node.id a.ports given port,
        ground (
          arith,
          publish_ports_outputs a node.id a.ports given,
          get-insert walk.outputs node.id result node.id,
          eq_refl node.id,
        ),
      )
