-- ===== src/Engine/Stepping/Frame.antt =====
-- What publishing and warning leave alone in a walk.
use fancy_flow_rs.Prelude.{List, [], ◌∷◌, String, Bool, ◌≡◌, refl}
use fancy_flow_rs.Prelude.BTreeMap
use fancy_flow_rs.Platform.{Platform}
use fancy_flow_rs.Schema.{FlowNode, FlowEdge}
use fancy_flow_rs.Engine.Activation.{Activation, activated_ports}
use fancy_flow_rs.Engine.Walk.{Setup, Walk, publish, publish_ports, publish_port, warn_undelivered}

module _ ⦃P : Platform⦄ where
  open P use {Value}

  -- Everything but the values, the outputs and the events.
  abbrev pub SameCourse : Walk → Walk → Type 0
  SameCourse a b =
      (b.order ≡ a.order)
      × (b.cursor ≡ a.cursor)
      × (b.state ≡ a.state)
      × (b.errors ≡ a.errors)
      × (b.cancelled ≡ a.cancelled)
      × (b.started_at ≡ a.started_at)

  publish_ports-SameCourse :
      (a : Activation) (id : String) (ports : List String) (walk : Walk)
      → SameCourse walk (publish_ports a id ports walk)
  unfolding publish_ports publish_port
  publish_ports-SameCourse a id [] walk = (refl, refl, refl, refl, refl, refl)
  publish_ports-SameCourse a id (port ∷ ports) walk =
      publish_ports-SameCourse a id ports (publish_port a id port walk)

  pub publish-SameCourse :
      (s : Setup) (node : FlowNode) (v : Value) (resumed : Bool) (walk : Walk)
      → SameCourse walk (publish s node v resumed walk)
  unfolding publish
  publish-SameCourse s node v resumed walk =
      publish_ports-SameCourse (activated_ports s.kinds node v) node.id
        (activated_ports s.kinds node v).ports
        (record walk { outputs = BTreeMap.insert walk.outputs node.id v })

  pub warn_undelivered-SameCourse :
      (s : Setup) (node : FlowNode) (inbound : List FlowEdge) (walk : Walk)
      → SameCourse walk (warn_undelivered s node inbound walk)
  unfolding warn_undelivered
  warn_undelivered-SameCourse s node inbound walk = (refl, refl, refl, refl, refl, refl)
