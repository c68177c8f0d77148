-- ===== src/Engine/Stepping/Progress.antt =====
-- The loops of the walk end: a turn that goes on moves the cursor, and so does a round of the driver.
use fancy_flow_rs.Prelude.{
  ℕ, zero, suc, ◌+◌, ◌-◌, ◌≤◌, ◌<◌, List, ◌++◌, true, false, not, Option, some, none, ◌&&◌, ◌||◌,
  ◌≡◌, ◌⊎◌, inl, inr, refl, ap, subst, ◌∙◌, arith, leb, Option-cases, Bool-cases, length, any,
}
use fancy_flow_rs.Prelude.BTreeMap
use fancy_flow_rs.Platform.{Platform}
use fancy_flow_rs.Schema.{FlowNode, FlowEdge}
use fancy_flow_rs.Runtime.Events.{RunEvent}
use fancy_flow_rs.Executors.{Outcome, value, aborted, resolve_for}
use fancy_flow_rs.Engine.Walk.{
  walking, finished, is_finished, is_awaiting, is_nil, Setup, Walk, Step, incoming,
  warn_undelivered, is_active, visual_only,
}
use fancy_flow_rs.Engine.Stepping.{
  Turn, again, return, skip_node, fail_closed, launch, gate, visit, current, visit_current,
  check_budget, signalled, turn, turns, next_step, resume, abort_walk,
}
use fancy_flow_rs.Engine.Stepping.Frame.{publish-SameCourse}

module _ ⦃P : Platform⦄ where
  open P use {Value, World}

  -- A turn that goes on keeps the order and moves the cursor by one; one that returns a step keeps
  -- both.
  abbrev Moved : Walk → Turn → Type 0
  Moved walk (again walk') = (walk'.order ≡ walk.order) × (walk'.cursor ≡ walk.cursor + 1)
  Moved walk (return walk' none) = Unit
  Moved walk (return walk' (some step)) = (walk'.order ≡ walk.order) × (walk'.cursor ≡ walk.cursor)

  launch-Moved :
      (s : Setup) (index : ℕ) (node : FlowNode) (walk : Walk)
      → Moved walk (launch s index node walk)
  unfolding launch fail_closed
  launch-Moved s index node walk = elim (Option-cases (resolve_for s.executors node)) [
    | inl unbound ↦ rw (unbound, launch) tt
    | inr (executor, found) ↦ rw (found, launch) (refl, refl)
  ]

  gate-Moved :
      (s : Setup) (index : ℕ) (node : FlowNode) (inbound : List FlowEdge) (walk : Walk)
      → Moved walk (gate s index node inbound walk)
  unfolding gate skip_node
  gate-Moved s index node inbound walk =
      elim (Bool-cases (not (is_nil inbound) && not (any (is_active walk) inbound))) [
        | inl dark ↦ rw (dark, gate) (refl, refl)
        | inr lit ↦ elim (Option-cases (visual_only s node)) [
          | inl step ↦ rw (lit, step, gate) (launch-Moved s index node walk)
          | inr (text, visual) ↦ rw (lit, visual, gate) (refl, refl)
        ]
      ]

  visit-Moved :
      (s : Setup) (index : ℕ) (node : FlowNode) (walk : Walk) → Moved walk (visit s index node walk)
  unfolding visit warn_undelivered
  visit-Moved s index node walk =
      elim (Option-cases (BTreeMap.get s.options.resume_outputs node.id)) [
        | inl fresh ↦
            let inbound = incoming s.graph.edges node.id in
            rw (fresh, visit)
              (gate-Moved s index node inbound (warn_undelivered s node inbound walk))
        | inr (stored, found) ↦
            let same = publish-SameCourse s node stored true walk in
            rw (found, visit) (same.0, ap (λ c. c + 1) same.1)
      ]

  check_budget-course :
      (s : Setup) (w : World) (walk : Walk)
      → ((check_budget s w walk).order ≡ walk.order)
        × ((check_budget s w walk).cursor ≡ walk.cursor)
  unfolding check_budget
  check_budget-course s w walk = ground arith

  visit_current-Moved : (s : Setup) (walk : Walk) → Moved walk (visit_current s walk)
  unfolding visit_current
  visit_current-Moved s walk = elim (Bool-cases (is_nil walk.errors)) [
    | inr failing ↦ rw (failing, visit_current) tt
    | inl fine ↦ elim (Option-cases (current s walk)) [
      | inl nowhere ↦ rw (fine, nowhere, visit_current) tt
      | inr ((index, node), here) ↦ rw (fine, here, visit_current) (visit-Moved s index node walk)
    ]
  ]

  Moved-subst :
      (a b : Walk) (t : Turn) → b.order ≡ a.order → b.cursor ≡ a.cursor → Moved b t → Moved a t
  Moved-subst a b (again walk') p q (m, n) = (m ∙ p, n ∙ ap (λ c. c + 1) q)
  Moved-subst a b (return walk' none) p q m = tt
  Moved-subst a b (return walk' (some step)) p q (m, n) = (m ∙ p, n ∙ q)

  -- Nothing is left to walk, or the turn moves.
  turn-Moved :
      (s : Setup) (w : World) (walk : Walk)
      → ((w' : Walk) × (turn s w walk ≡ return w' none))
        ⊎ (Moved walk (turn s w walk) × (walk.cursor < length walk.order))
  unfolding turn
  turn-Moved s w walk =
      elim (Bool-cases (is_finished walk.state || leb (length walk.order) walk.cursor)) [
        | inl over ↦ inl (record walk { state = finished }, rw (over, turn))
        | inr open_walk ↦ elim (Option-cases (signalled s w)) [
          | inr (reason, tripped) ↦ inl (
            record walk { cancelled = some reason; state = finished },
            rw (open_walk, tripped, turn),
          )
          | inl quiet ↦
              let charged = check_budget s w walk in
              let course = check_budget-course s w walk in
              inr (
                rw (open_walk, quiet, turn)
                    (Moved-subst walk charged (visit_current s charged) course.0 course.1
                      (visit_current-Moved s charged)),
                ground arith,
              )
        ]
      ]

  -- What the loop returns: the order is kept, and behind a step the cursor is in range and no
  -- earlier than before.
  abbrev pub Stepped : Walk → Walk × Option Step → Type 0
  Stepped walk (walk', none) = Unit
  Stepped walk (walk', some step) =
      (walk'.order ≡ walk.order) × (walk.cursor ≤ walk'.cursor) × (walk'.cursor < length walk.order)

  Stepped-later :
      (walk next : Walk)
      → next.order ≡ walk.order
      → next.cursor ≡ walk.cursor + 1
      → (r : Walk × Option Step) → Stepped next r
      → Stepped walk r
  Stepped-later walk next p q (last, none) h = tt
  Stepped-later walk next p q (last, some step) (order, later, inside) =
      let size = ap (λ l. length l) p in (order ∙ p, omega arith, omega (arith, size))

  pub Turn-cases :
      (t : Turn)
      → ((w : Walk) × (t ≡ again w))
        ⊎ ((w : Walk) × (t ≡ return w none))
        ⊎ ((w : Walk) × (step : Step) × (t ≡ return w (some step)))
  Turn-cases (again w) = inl (w, refl)
  Turn-cases (return w none) = inr (inl (w, refl))
  Turn-cases (return w (some step)) = inr (inr (w, step, refl))

  turns_total :
      (fuel : ℕ) (s : Setup) (w : World) (walk : Walk)
      → length walk.order - walk.cursor < fuel
      → (r : Walk × Option Step) × (turns fuel s w walk ≡ some r) × Stepped walk r
  unfolding turns
  turns_total zero s w walk h = elim h [ ]
  turns_total (suc fuel) s w walk h = elim (turn-Moved s w walk) [
    | inl (last, e) ↦ ((last, none), rw (e, turns), tt)
    | inr (moved, inside) ↦ elim (Turn-cases (turn s w walk)) [
      | inl (next, e) ↦
          let (order, cursor) = subst (Moved walk) e moved in
          let size = ap (λ l. length l) order in
          let (r, found, stepped) = turns_total fuel s w next (omega (arith, size)) in
          (r, rw (e, turns) found, Stepped-later walk next order cursor r stepped)
      | inr (inl (last, e)) ↦ ((last, none), rw (e, turns), tt)
      | inr (inr (last, step, e)) ↦
          let (order, cursor) = subst (Moved walk) e moved in
          ((last, some step), rw (e, turns), (order, omega arith, omega arith))
    ]
  ]

  -- The assertion: a walk that still waits for an outcome has no next step.
  pub next_step-awaiting :
      (s : Setup) (w : World) (walk : Walk)
      → is_awaiting walk.state ≡ true
      → next_step s w walk ≡ none
  unfolding next_step
  next_step-awaiting s w walk e = rw (e, next_step) refl

  pub next_step-turns :
      (s : Setup) (w : World) (walk : Walk)
      → is_awaiting walk.state ≡ false
      → next_step s w walk ≡ turns (suc (length walk.order - walk.cursor)) s w walk
  unfolding next_step
  next_step-turns s w walk e = rw (e, next_step) refl

  pub next_step-idle :
      (s : Setup) (w : World) (walk : Walk)
      → is_awaiting walk.state ≡ false
      → (r : Walk × Option Step) × (next_step s w walk ≡ some r) × Stepped walk r
  next_step-idle s w walk idle =
      let (r, found, stepped) =
        turns_total (suc (length walk.order - walk.cursor)) s w walk (omega arith) in
      (r, next_step-turns s w walk idle ∙ found, stepped)

  -- `next_step` fails its assertion where the walk still waits for the outcome of an earlier step, and
  -- returns everywhere else: behind the step that it returns the cursor is in the order's range, and it
  -- never moves back.
  pub next_step_total :
      (s : Setup) (w : World) (walk : Walk)
      → ((is_awaiting walk.state ≡ true) × (next_step s w walk ≡ none))
        ⊎ ((is_awaiting walk.state ≡ false)
            × ((r : Walk × Option Step) × (next_step s w walk ≡ some r) × Stepped walk r))
  next_step_total s w walk = elim (Bool-cases (is_awaiting walk.state)) [
    | inl waiting ↦ inl (waiting, next_step-awaiting s w walk waiting)
    | inr idle ↦ inr (idle, next_step-idle s w walk idle)
  ]

  -- A round of the driver moves the cursor by one, or it ends the walk.
  pub resume-course :
      (s : Setup) (step : Step) (emitted : List RunEvent) (outcome : Outcome) (walk : Walk)
      → ((resume s step emitted outcome walk).order ≡ walk.order)
        × (((resume s step emitted outcome walk).cursor ≡ walk.cursor + 1)
            ⊎ ((resume s step emitted outcome walk).state ≡ finished))
        × (is_awaiting (resume s step emitted outcome walk).state ≡ false)
  unfolding resume abort_walk
  resume-course s step emitted (aborted reason) walk = (refl, inr refl, refl)
  resume-course s step emitted (value v) walk =
      let same =
        publish-SameCourse s step.node v false
          (record walk { state = walking; events = walk.events ++ emitted }) in
      (same.0, inl (ap (λ c. c + 1) same.1), ap is_awaiting same.2)

  pub next_step_finished :
      (s : Setup) (w : World) (walk : Walk)
      → walk.state ≡ finished
      → next_step s w walk ≡ some (record walk { state = finished }, none)
  unfolding next_step turns turn
  next_step_finished s w walk h = rw h
