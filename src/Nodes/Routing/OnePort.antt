-- ===== src/Nodes/Routing/OnePort.antt =====
-- A node that routes lights one port.
use fancy_flow_rs.Prelude.{[], ◌∷◌, String, Option, none, ◌≡◌, ◌⊎◌, inl, inr, refl}
use fancy_flow_rs.Platform.{Platform}
use fancy_flow_rs.Registry.Catalogue.{NodeKindRegistry}
use fancy_flow_rs.Engine.Activation.{activated_ports}
use fancy_flow_rs.Engine.Activation.Wrapped.{activated_ports-wrapped}
use fancy_flow_rs.Executors.{ExecutionContext, value, aborted}
use fancy_flow_rs.Executors.Context.{Ran, abort, input_or_all}
use fancy_flow_rs.Runtime.Port
use fancy_flow_rs.Nodes.Routing.{warn_if_unresolved, branch_port, branch, switch_port, switch_case}
use fancy_flow_rs.Nodes.Routing.Choice.{
  IsRefused, IsAccepted, validate_routing_expression_cases, BranchesTo, branch_port-BranchesTo,
  SwitchesTo, switch_port-SwitchesTo,
}

module _ ⦃P : Platform⦄ (kinds : Option NodeKindRegistry) (ctx : ExecutionContext) where
  open P use {Value}

  -- The node was refused and nothing else happened, or it chose a port and its result lights that port
  -- with the input.
  abbrev pub Routes : String → (String → Type 0) → Ran → Type 0
  Routes field Chosen ran =
      (IsRefused ctx field × ((reason : String) × (ran ≡ ([], aborted reason))))
      ⊎ (IsAccepted ctx field
          × ((port : String) × (v : Value) × Chosen port
              × (ran ≡ (warn_if_unresolved ctx field port, value v))
              × (activated_ports kinds ctx.node v
                  ≡ record { ports = port ∷ []; value = input_or_all ctx; per_port = none })))

  branch-Routes : Routes "condition" (BranchesTo ctx) (branch ctx)
  unfolding branch abort
  branch-Routes = elim (validate_routing_expression_cases ctx "branch" "condition") [
    | inl (reason, refused, why) ↦ inl (why, (reason, rw (refused, branch) refl))
    | inr (accepted, why) ↦ inr (
      why,
      (
        branch_port ctx,
        Port.branch (branch_port ctx) (input_or_all ctx),
        branch_port-BranchesTo ctx,
        rw (accepted, branch) refl,
        (activated_ports-wrapped kinds ctx.node (branch_port ctx) [] (input_or_all ctx)).1,
      ),
    )
  ]

  switch_case-Routes : Routes "value" (SwitchesTo ctx) (switch_case ctx)
  unfolding switch_case abort
  switch_case-Routes = elim (validate_routing_expression_cases ctx "switch_case" "value") [
    | inl (reason, refused, why) ↦ inl (why, (reason, rw (refused, switch_case) refl))
    | inr (accepted, why) ↦ inr (
      why,
      (
        switch_port ctx,
        Port.only (switch_port ctx) (input_or_all ctx),
        switch_port-SwitchesTo ctx,
        rw (accepted, switch_case) refl,
        (activated_ports-wrapped kinds ctx.node (switch_port ctx) [] (input_or_all ctx)).0,
      ),
    )
  ]

  -- A branch or a switch aborts and emits nothing exactly where its routing field is a text that is not
  -- blank and has no opening braces, or leaves some open. Else it succeeds: the engine reads from its
  -- result one port with the input on it, whatever ports are declared. The port of a branch is `true`
  -- where its condition is truthy on the inputs, and else `false`; the port of a switch is the text that
  -- its cases have under the text of its value, and `default` where they have none.
  pub branch-switch_case-Routes :
      Routes "condition" (BranchesTo ctx) (branch ctx)
      × Routes "value" (SwitchesTo ctx) (switch_case ctx)
  branch-switch_case-Routes = (branch-Routes, switch_case-Routes)
