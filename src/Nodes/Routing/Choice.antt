-- ===== src/Nodes/Routing/Choice.antt =====
-- When a routing field is refused, and the port that a node chooses by it.
use fancy_flow_rs.Prelude.{
  String, true, false, some, none, ◌≡◌, ◌⊎◌, inl, inr, refl, ltb, Bool-cases, Option-cases, ◌<>◌,
}
use fancy_flow_rs.Prelude.Scan.{is_blank, trim, contains_text}
use fancy_flow_rs.Platform.{Platform}
use fancy_flow_rs.Executors.{ExecutionContext}
use fancy_flow_rs.Executors.Context.{option, text_of}
use fancy_flow_rs.Nodes.Expr.{evaluate_in, truthy, text}
use fancy_flow_rs.Nodes.Routing.{
  count_open, quoted, refusal, validate_routing_expression, branch_port, switch_port,
}

module _ ⦃P : Platform⦄ (ctx : ExecutionContext) where
  open P use {Value, Map}

  -- A text that is not blank and has no template, or one that is not closed.
  abbrev pub IsRefused : String → Type 0
  IsRefused field =
      (template : String) × (text_of (option ctx field) ≡ some template)
      × (is_blank (trim template) ≡ false)
      × ((contains_text template "{{" ≡ false) ⊎ (ltb 0 (count_open 0 template) ≡ true))

  -- No text, a blank one, or one whose templates are closed.
  abbrev pub IsAccepted : String → Type 0
  IsAccepted field =
      (text_of (option ctx field) ≡ none)
      ⊎ ((template : String) × (text_of (option ctx field) ≡ some template)
          × ((is_blank (trim template) ≡ true)
              ⊎ ((contains_text template "{{" ≡ true) × (ltb 0 (count_open 0 template) ≡ false))))

  refusal_cases :
      (subject template : String)
      → ((reason : String) × (refusal subject template ≡ some reason)
          × (is_blank (trim template) ≡ false)
          × ((contains_text template "{{" ≡ false) ⊎ (ltb 0 (count_open 0 template) ≡ true)))
        ⊎ ((refusal subject template ≡ none)
            × ((is_blank (trim template) ≡ true)
                ⊎ ((contains_text template "{{" ≡ true) × (ltb 0 (count_open 0 template) ≡ false))))
  unfolding refusal
  refusal_cases subject template = elim (Bool-cases (is_blank (trim template))) [
    | inl blank ↦ inr (rw (blank, refusal) refl, inl blank)
    | inr filled ↦ elim (Bool-cases (contains_text template "{{")) [
      | inr bare ↦ inl (
        subject <> " is not an expression -- wrap it: {{ " <> trim template <> " }}",
        rw (filled, bare, refusal) refl,
        filled,
        inl bare,
      )
      | inl templated ↦ elim (Bool-cases (ltb 0 (count_open 0 template))) [
        | inl unclosed ↦ inl (
          subject <> " has an unclosed expression -- close every {{ with }}",
          rw (filled, templated, unclosed, refusal) refl,
          filled,
          inr unclosed,
        )
        | inr closed ↦ inr (rw (filled, templated, closed, refusal) refl, inr (templated, closed))
      ]
    ]
  ]

  pub validate_routing_expression_cases :
      (kind field : String)
      → ((reason : String) × (validate_routing_expression ctx kind field ≡ some reason)
          × IsRefused field)
        ⊎ ((validate_routing_expression ctx kind field ≡ none) × IsAccepted field)
  unfolding validate_routing_expression
  validate_routing_expression_cases kind field = elim (Option-cases (text_of (option ctx field))) [
    | inl absent ↦ inr (rw (absent, validate_routing_expression) refl, inl absent)
    | inr (template, found) ↦
        elim (refusal_cases
          (kind <> " " <> quoted ctx.node.id <> " " <> field <> " " <> quoted (trim template))
          template) [
            | inl (reason, e, filled, why) ↦
                inl (
                  reason,
                  rw (found, validate_routing_expression) e,
                  (template, found, filled, why),
                )
            | inr (e, why) ↦
                inr (rw (found, validate_routing_expression) e, inr (template, found, why))
          ]
  ]

  -- The port of a branch: `true` where the condition is truthy on the inputs, and else `false`.
  abbrev pub BranchesTo : String → Type 0
  BranchesTo port =
      ((truthy (evaluate_in (option ctx "condition") ctx.inputs) ≡ true) × (port ≡ "true"))
      ⊎ ((truthy (evaluate_in (option ctx "condition") ctx.inputs) ≡ false) × (port ≡ "false"))

  pub branch_port-BranchesTo : BranchesTo (branch_port ctx)
  unfolding branch_port
  branch_port-BranchesTo =
      elim (Bool-cases (truthy (evaluate_in (option ctx "condition") ctx.inputs))) [
        | inl e ↦ inl (e, rw (e, branch_port) refl)
        | inr e ↦ inr (e, rw (e, branch_port) refl)
      ]

  abbrev key : String
  key = text (some (evaluate_in (option ctx "value") ctx.inputs))

  -- The configured cases have the text of the value as a key, and this port under it.
  abbrev pub HasCase : String → Type 0
  HasCase port =
      (v : Value) × (cases : Map) × (name : Value) × (option ctx "cases" ≡ some v)
      × (P.as_object v ≡ some cases)
      × (P.get cases key ≡ some name)
      × (P.as_str name ≡ some port)

  -- There are no cases, or none for the text of the value that names a port.
  abbrev pub HasNoCase : Type 0
  HasNoCase =
      (option ctx "cases" ≡ none)
      ⊎ ((v : Value) × (option ctx "cases" ≡ some v)
          × ((P.as_object v ≡ none)
              ⊎ ((cases : Map) × (P.as_object v ≡ some cases)
                  × ((P.get cases key ≡ none)
                      ⊎ ((name : Value) × (P.get cases key ≡ some name)
                          × (P.as_str name ≡ none))))))

  -- The port of a switch: that of the case for the text of the value, and else `default`.
  abbrev pub SwitchesTo : String → Type 0
  SwitchesTo port = HasCase port ⊎ (HasNoCase × (port ≡ "default"))

  pub switch_port-SwitchesTo : SwitchesTo (switch_port ctx)
  unfolding switch_port
  switch_port-SwitchesTo = elim (Option-cases (option ctx "cases")) [
    | inl e ↦ inr (inl e, rw (e, switch_port) refl)
    | inr (v, e) ↦ elim (Option-cases (P.as_object v)) [
      | inl f ↦ inr (inr (v, e, inl f), rw (e, f, switch_port) refl)
      | inr (cases, f) ↦ elim (Option-cases (P.get cases key)) [
        | inl g ↦ inr (inr (v, e, inr (cases, f, inl g)), rw (e, f, g, switch_port) refl)
        | inr (name, g) ↦ elim (Option-cases (P.as_str name)) [
          | inl h ↦
              inr (inr (v, e, inr (cases, f, inr (name, g, h))), rw (e, f, g, h, switch_port) refl)
          | inr (port, h) ↦ inl (v, cases, name, e, f, g, rw (e, f, g, h, switch_port) refl)
        ]
      ]
    ]
  ]
