-- ===== src/Engine/Stepping/Congruence.antt =====
-- A run depends on the host only by the rounds of the driver, and the rounds by the executions.
use fancy_flow_rs.Prelude.{
  ℕ, zero, suc, List, [], ◌∷◌, Option, some, none, ◌≡◌, ◌≢◌, inl, inr, refl, sym, ap, ◌∙◌,
  Option-cases, length, get_elem?,
}
use mathlib.Core.List.{Memᴰ}
use fancy_flow_rs.Platform.{Platform}
use fancy_flow_rs.Schema.{FlowNode}
use fancy_flow_rs.Engine.Walk.{Setup, Walk, Step, start}
use fancy_flow_rs.Engine.Stepping.{
  Execute, execute, context_for, current, next_step, run_loop, run, run_started, resume,
}
use fancy_flow_rs.Engine.Stepping.Entry.{IsEntered, next_step-IsEntered}

module _ {ℓ} {A : Type ℓ} where
  get_elem?-mem : (l : List A) (i : ℕ) (x : A) → get_elem? l i ≡ some x → Memᴰ x l
  get_elem?-mem [] i x h = cc
  get_elem?-mem (y ∷ l) zero x h = Memᴰ.head cc
  get_elem?-mem (y ∷ l) (suc i) x h = Memᴰ.tail (get_elem?-mem l i x h)

module _ ⦃P : Platform⦄ (s : Setup) where
  open P use {World}

  no_place :
      (index : ℕ) (node : FlowNode) → ◌≢◌ {A = Option (ℕ × FlowNode)} none (some (index, node))
  no_place index node e = cc

  same_place :
      (i index : ℕ) (x node : FlowNode)
      → ◌≡◌ {A = Option (ℕ × FlowNode)} (some (i, x)) (some (index, node))
      → (i ≡ index) × (x ≡ node)
  same_place i index x node e = (cc, cc)

  pub current-mem :
      (walk : Walk) (index : ℕ) (node : FlowNode)
      → current s walk ≡ some (index, node)
      → Memᴰ node s.graph.nodes
  unfolding current
  current-mem walk index node h = elim (Option-cases (get_elem? walk.order walk.cursor)) [
    | inl e ↦
        let gone : current s walk ≡ none = rw (e, current) refl in
        absurd (no_place index node (sym gone ∙ h))
    | inr (i, e) ↦ elim (Option-cases (get_elem? s.graph.nodes i)) [
      | inl e' ↦
          let gone : current s walk ≡ none = rw (e, e', current) refl in
          absurd (no_place index node (sym gone ∙ h))
      | inr (x, e') ↦
          let here : current s walk ≡ some (i, x) = rw (e, e', current) refl in
          get_elem?-mem s.graph.nodes i node
            (e' ∙ ap some (same_place i index x node (sym here ∙ h)).1)
    ]
  ]

  run_loop-nothing :
      (call : Execute) (fuel : ℕ) (w : World) (walk : Walk)
      → next_step s w walk ≡ none
      → run_loop (suc fuel) call s w walk ≡ none
  unfolding run_loop
  run_loop-nothing call fuel w walk e = rw (e, run_loop) refl

  run_loop-over :
      (call : Execute) (fuel : ℕ) (w : World) (walk next : Walk)
      → next_step s w walk ≡ some (next, none)
      → run_loop (suc fuel) call s w walk ≡ some (next, w)
  unfolding run_loop
  run_loop-over call fuel w walk next e = rw (e, run_loop) refl

  run_loop-step :
      (call : Execute) (fuel : ℕ) (w : World) (walk next : Walk) (step : Step)
      → next_step s w walk ≡ some (next, some step)
      → run_loop (suc fuel) call s w walk
        ≡ run_loop fuel call s (execute call step.executor (context_for s next step) w).world (
            resume s step
              (execute call step.executor (context_for s next step) w).emitted
              (execute call step.executor (context_for s next step) w).outcome
              next)
  unfolding run_loop
  run_loop-step call fuel w walk next step e = rw (e, run_loop) refl

  -- Two hosts that execute every step that is reached alike.
  module _ (call call' : Execute)
      (alike : (walk : Walk) (step : Step) (w : World)
        → IsEntered s walk step
        → execute call step.executor (context_for s walk step) w
          ≡ execute call' step.executor (context_for s walk step) w) where
    run_loop-alike :
        (fuel : ℕ) (w : World) (walk : Walk)
        → run_loop fuel call s w walk ≡ run_loop fuel call' s w walk
    unfolding run_loop
    run_loop-alike zero w walk = refl
    run_loop-alike (suc fuel) w walk = elim (Option-cases (next_step s w walk)) [
      | inl e ↦ run_loop-nothing call fuel w walk e ∙ sym (run_loop-nothing call' fuel w walk e)
      | inr ((next, none), e) ↦
          run_loop-over call fuel w walk next e ∙ sym (run_loop-over call' fuel w walk next e)
      | inr ((next, some step), e) ↦
          let same = alike next step w (next_step-IsEntered s w walk next step e) in
          let reply = execute call' step.executor (context_for s next step) w in
          run_loop-step call fuel w walk next step e
          ∙ ap (λ r. run_loop fuel call s r.world (resume s step r.emitted r.outcome next)) same
          ∙ run_loop-alike fuel reply.world (resume s step reply.emitted reply.outcome next)
          ∙ sym (run_loop-step call' fuel w walk next step e)
    ]

    pub run-alike : (w : World) → run call s w ≡ run call' s w
    unfolding run run_started
    run-alike w = elim (Option-cases (start s w)) [
      | inl e ↦ rw e refl
      | inr (walk, e) ↦
          rw (e, run_started) (rw (run_loop-alike (suc (length walk.order)) w walk) refl)
    ]
