-- ===== src/Engine/Activation.antt =====
-- engine/walk.rs, `activated_ports`: which output ports a result lights, and what they carry.
pub mod Wrapped
use fancy_flow_rs.Prelude.{List, [], ◌∷◌, map, String, Option, some, none}
use fancy_flow_rs.Platform.{Platform}
use fancy_flow_rs.Schema.{FlowNode}
use fancy_flow_rs.Registry.Catalogue.{NodeKindRegistry}
use fancy_flow_rs.Registry.Catalogue
use fancy_flow_rs.Registry.PortResolution.{port_ids}

module _ ⦃P : Platform⦄ where
  open P use {Value, Map, null, as_str, as_array, as_object, get, entries}

  pub record Activation : Type 0 where
    pub ports : List String
    pub value : Value
    pub per_port : Option Map

  abbrev pub and_then {ℓ κ} : {A : Type ℓ} {B : Type κ} → Option A → (A → Option B) → Option B
  and_then (some a) f = f a
  and_then none f = none

  abbrev pub value_or : Option Value → Value → Value
  value_or (some v) d = v
  value_or none d = d

  -- `.filter_map(as_str)`
  unfoldable pub texts : List Value → List String
  texts [] = []
  texts (v ∷ l) = let rest = texts l in elim (as_str v) [ some s ↦ s ∷ rest | none ↦ rest ]

  -- `__port` names the one port.
  unfoldable pub single_port : Map → Option Activation
  single_port m = elim (and_then (get m "__port") as_str) [
    | some port ↦
        some (record { ports = port ∷ []; value = value_or (get m "value") null; per_port = none })
    | none ↦ none
  ]

  -- `__ports` names a subset, by a list or by an object with a value for each.
  unfoldable pub port_subset : Map → Option Activation
  unfolding texts
  port_subset m = elim (get m "__ports") [
    | none ↦ none
    | some v ↦ elim (as_array v) [
      | some list ↦
          some
            (record { ports = texts list; value = value_or (get m "value") null; per_port = none })
      | none ↦ elim (as_object v) [
        | some per_port ↦ some (record {
          ports = map (λ e. e.0) (entries per_port);
          value = value_or (get m "value") null;
          per_port = some per_port;
        })
        | none ↦ none
      ]
    ]
  ]

  -- `branch` names one port; without the key `value` the whole result is carried.
  unfoldable pub branch_port : Map → Value → Option Activation
  branch_port m result = elim (and_then (get m "branch") as_str) [
    | some port ↦
        some
          (record { ports = port ∷ []; value = value_or (get m "value") result; per_port = none })
    | none ↦ none
  ]

  unfoldable pub chosen : Map → Value → Option Activation
  unfolding single_port port_subset branch_port
  chosen m result = elim (single_port m) [
    | some a ↦ some a
    | none ↦ elim (port_subset m) [ some a ↦ some a | none ↦ branch_port m result ]
  ]

  -- The node's own ports, or else its kind's.
  unfoldable pub declared_outputs : Option NodeKindRegistry → FlowNode → Option (List String)
  unfolding Catalogue.get
  declared_outputs kinds node = elim node.outputs [
    | some ports ↦ some (port_ids ports)
    | none ↦ and_then kinds λ catalogue. and_then node.kind λ name.
        and_then (Catalogue.get catalogue name)
          λ kind. and_then kind.outputs λ ports. some (port_ids ports)
  ]

  abbrev pub ports_or_out : Option (List String) → List String
  ports_or_out (some ports) = ports
  ports_or_out none = "out" ∷ []

  unfoldable pub activated_ports : Option NodeKindRegistry → FlowNode → Value → Activation
  unfolding chosen declared_outputs
  activated_ports kinds node result = elim (and_then (as_object result) (λ m. chosen m result)) [
    | some a ↦ a
    | none ↦ record {
      ports = ports_or_out (declared_outputs kinds node);
      value = result;
      per_port = none;
    }
  ]
