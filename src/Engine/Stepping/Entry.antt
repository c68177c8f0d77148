-- ===== src/Engine/Stepping/Entry.antt =====
-- When a node is executed.
use fancy_flow_rs.Prelude.{
  ℕ, zero, suc, ◌-◌, Bool, true, not, Option, some, none, ◌&&◌, ◌||◌, ◌≡◌, ◌≢◌, inl, inr, refl, sym,
  subst, ◌∙◌, arith, leb, Option-cases, Bool-cases, length, any,
}
use fancy_flow_rs.Prelude.BTreeMap
use fancy_flow_rs.Platform.{Platform}
use fancy_flow_rs.Schema.{FlowNode}
use fancy_flow_rs.Executors.{resolve_for}
use fancy_flow_rs.Engine.Walk.{
  is_finished, is_awaiting, is_nil, Setup, Walk, Step, incoming, warn_undelivered, is_active,
  visual_only,
}
use fancy_flow_rs.Engine.Stepping.{
  Turn, again, return, skip_node, fail_closed, launch, gate, visit, current, visit_current,
  check_budget, signalled, turn, turns, next_step,
}
use fancy_flow_rs.Engine.Stepping.Progress.{Turn-cases, next_step-awaiting, next_step-turns}

module _ ⦃P : Platform⦄ where
  no_turn :
      (next : Walk) (step : Step)
      → ◌≢◌ {A = Option (Walk × Option Step)} none (some (next, some step))
  no_turn next step e = cc

  no_step :
      (last next : Walk) (step : Step)
      → ◌≢◌ {A = Option (Walk × Option Step)} (some (last, none)) (some (next, some step))
  no_step last next step e = cc

  same_step :
      (last next : Walk) (found step : Step)
      → ◌≡◌ {A = Option (Walk × Option Step)} (some (last, some found)) (some (next, some step))
      → (last ≡ next) × (found ≡ step)
  same_step last next found step e = (cc, cc)

module _ ⦃P : Platform⦄ (s : Setup) where
  open P use {World}

  -- An inbound edge is active, or there is none.
  abbrev pub is_lit : Walk → FlowNode → Bool
  is_lit walk node =
      is_nil (incoming s.graph.edges node.id)
      || any (is_active walk) (incoming s.graph.edges node.id)

  -- The node stands at the cursor, and it is not given from an earlier run, not visual, and reached.
  abbrev Reached : Walk → ℕ → FlowNode → Type 0
  Reached walk index node =
      (current s walk ≡ some (index, node))
      × (is_nil walk.errors ≡ true)
      × (BTreeMap.get s.options.resume_outputs node.id ≡ none)
      × (is_lit walk node ≡ true)
      × (visual_only s node ≡ none)

  abbrev pub IsEntered : Walk → Step → Type 0
  IsEntered walk step =
      Reached walk step.index step.node × (resolve_for s.executors step.node ≡ some step.executor)

  abbrev Enters : Turn → Type 0
  Enters (again walk) = Unit
  Enters (return walk none) = Unit
  Enters (return walk (some step)) = IsEntered walk step

  launch-Enters :
      (index : ℕ) (node : FlowNode) (walk : Walk)
      → Reached walk index node
      → Enters (launch s index node walk)
  unfolding launch fail_closed current
  launch-Enters index node walk r = elim (Option-cases (resolve_for s.executors node)) [
    | inl unbound ↦ rw (unbound, launch) tt
    | inr (executor, found) ↦ rw (found, launch) (r, found)
  ]

  gate-Enters :
      (index : ℕ) (node : FlowNode) (walk : Walk)
      → current s walk ≡ some (index, node)
      → is_nil walk.errors ≡ true
      → BTreeMap.get s.options.resume_outputs node.id ≡ none
      → Enters (gate s index node (incoming s.graph.edges node.id) walk)
  unfolding gate skip_node
  gate-Enters index node walk here fine fresh =
      let inbound = incoming s.graph.edges node.id in
      elim (Bool-cases (not (is_nil inbound) && not (any (is_active walk) inbound))) [
        | inl dark ↦ rw (dark, gate) tt
        | inr lit ↦ elim (Option-cases (visual_only s node)) [
          | inr (text, visual) ↦ rw (lit, visual, gate) tt
          | inl step ↦
              rw (lit, step, gate)
                (launch-Enters index node walk (here, fine, fresh, ground (arith, lit), step))
        ]
      ]

  visit-Enters :
      (index : ℕ) (node : FlowNode) (walk : Walk)
      → current s walk ≡ some (index, node)
      → is_nil walk.errors ≡ true
      → Enters (visit s index node walk)
  unfolding visit warn_undelivered current
  visit-Enters index node walk here fine =
      elim (Option-cases (BTreeMap.get s.options.resume_outputs node.id)) [
        | inr (stored, found) ↦ rw (found, visit) tt
        | inl fresh ↦
            rw (fresh, visit)
              (gate-Enters index node
                (warn_undelivered s node (incoming s.graph.edges node.id) walk) here fine fresh)
      ]

  visit_current-Enters : (walk : Walk) → Enters (visit_current s walk)
  unfolding visit_current
  visit_current-Enters walk = elim (Bool-cases (is_nil walk.errors)) [
    | inr failing ↦ rw (failing, visit_current) tt
    | inl fine ↦ elim (Option-cases (current s walk)) [
      | inl nowhere ↦ rw (fine, nowhere, visit_current) tt
      | inr ((index, node), here) ↦
          rw (fine, here, visit_current) (visit-Enters index node walk here fine)
    ]
  ]

  turn-Enters : (w : World) (walk : Walk) → Enters (turn s w walk)
  unfolding turn
  turn-Enters w walk =
      elim (Bool-cases (is_finished walk.state || leb (length walk.order) walk.cursor)) [
        | inl over ↦ rw (over, turn) tt
        | inr open_walk ↦ elim (Option-cases (signalled s w)) [
          | inr (reason, tripped) ↦ rw (open_walk, tripped, turn) tt
          | inl quiet ↦ rw (open_walk, quiet, turn) (visit_current-Enters (check_budget s w walk))
        ]
      ]

  turns-again :
      (fuel : ℕ) (w : World) (walk next : Walk)
      → turn s w walk ≡ again next
      → turns (suc fuel) s w walk ≡ turns fuel s w next
  unfolding turns
  turns-again fuel w walk next e = rw (e, turns) refl

  turns-return :
      (fuel : ℕ) (w : World) (walk last : Walk) (o : Option Step)
      → turn s w walk ≡ return last o
      → turns (suc fuel) s w walk ≡ some (last, o)
  unfolding turns
  turns-return fuel w walk last o e = rw (e, turns) refl

  turns-IsEntered :
      (fuel : ℕ) (w : World) (walk next : Walk) (step : Step)
      → turns fuel s w walk ≡ some (next, some step)
      → IsEntered next step
  unfolding turns
  turns-IsEntered zero w walk next step h = absurd (no_turn next step h)
  turns-IsEntered (suc fuel) w walk next step h = elim (Turn-cases (turn s w walk)) [
    | inl (later, e) ↦
        turns-IsEntered fuel w later next step (sym (turns-again fuel w walk later e) ∙ h)
    | inr (inl (last, e)) ↦
        absurd (no_step last next step (sym (turns-return fuel w walk last none e) ∙ h))
    | inr (inr (last, found, e)) ↦
        let same =
          same_step last next found step (sym (turns-return fuel w walk last (some found) e) ∙ h) in
        let entered : IsEntered last found = subst Enters e (turn-Enters w walk) in
        subst (λ x. IsEntered next x) same.1 (subst (λ x. IsEntered x found) same.0 entered)
  ]

  -- A step that `next_step` returns names the node at the cursor and the executor that is bound to
  -- it. No error is recorded, the node is neither visual nor given from an earlier run, and it has
  -- no inbound edge or one that reads a published port.
  pub next_step-IsEntered :
      (w : World) (walk next : Walk) (step : Step)
      → next_step s w walk ≡ some (next, some step)
      → IsEntered next step
  next_step-IsEntered w walk next step h = elim (Bool-cases (is_awaiting walk.state)) [
    | inl waiting ↦ cc (sym (next_step-awaiting s w walk waiting) ∙ h)
    | inr idle ↦
        turns-IsEntered (suc (length walk.order - walk.cursor)) w walk next step
          (sym (next_step-turns s w walk idle) ∙ h)
  ]
