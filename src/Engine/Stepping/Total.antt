-- ===== src/Engine/Stepping/Total.antt =====
-- A run that starts ends.
use fancy_flow_rs.Prelude.{
  ℕ, zero, suc, ◌-◌, ◌<◌, false, Option, some, none, ◌≡◌, inl, inr, ap, ◌∙◌, arith, length,
}
use fancy_flow_rs.Registry.KindId.{dedup_extend}
use fancy_flow_rs.Engine.Topo.{node_ids}
use fancy_flow_rs.Engine.Walk.Started.{start_total}
use fancy_flow_rs.Platform.{Platform}
use fancy_flow_rs.Engine.Walk.{finished, is_awaiting, Setup, Walk, Step, start}
use fancy_flow_rs.Engine.Stepping.{
  [], next_step, resume, execute, Execute, context_for, run_loop, run_started, run, finish, Finish,
}
use fancy_flow_rs.Engine.Stepping.Progress.{
  next_step-idle, resume-course, next_step_finished, Stepped,
}

module _ ⦃P : Platform⦄ where
  open P use {Value, World}

  run_loop_finished :
      (fuel : ℕ) (call : Execute) (s : Setup) (w : World) (walk : Walk)
      → 0 < fuel
      → walk.state ≡ finished
      → (r : Walk × World) × (run_loop fuel call s w walk ≡ some r)
  unfolding run_loop
  run_loop_finished zero call s w walk h e = elim h [ ]
  run_loop_finished (suc fuel) call s w walk h e =
      ((record walk { state = finished }, w), rw (next_step_finished s w walk e, run_loop))

  module _ (fuel : ℕ) (call : Execute) (s : Setup) (w : World) (walk : Walk) where
    -- One round, given that the rounds behind it end.
    run_loop_round :
        ((w' : World) (next : Walk)
          → is_awaiting next.state ≡ false
          → length next.order - next.cursor < fuel
          → (r : Walk × World) × (run_loop fuel call s w' next ≡ some r))
        → length walk.order - walk.cursor < suc fuel
        → (r : Walk × Option Step) × (next_step s w walk ≡ some r) × Stepped walk r
        → (r : Walk × World) × (run_loop (suc fuel) call s w walk ≡ some r)
    unfolding run_loop
    run_loop_round later h ((last, none), e, _) = ((last, w), rw (e, run_loop))
    run_loop_round later h ((next, some step), e, (order, after, inside)) =
        let reply = execute call step.executor (context_for s next step) w in
        let resumed = resume s step reply.emitted reply.outcome next in
        let (order', moved, idle) = resume-course s step reply.emitted reply.outcome next in
        let size = ap (λ l. length l) (order' ∙ order) in
        let found : (r : Walk × World) × (run_loop fuel call s reply.world resumed ≡ some r) =
          elim moved [
            | inl on ↦ later reply.world resumed idle (omega (arith, size, on))
            | inr over ↦ run_loop_finished fuel call s reply.world resumed (omega arith) over
          ] in
        (found.0, rw (e, run_loop) found.1)

  run_loop_total :
      (fuel : ℕ) (call : Execute) (s : Setup) (w : World) (walk : Walk)
      → is_awaiting walk.state ≡ false
      → length walk.order - walk.cursor < fuel
      → (r : Walk × World) × (run_loop fuel call s w walk ≡ some r)
  run_loop_total zero call s w walk idle h = elim h [ ]
  run_loop_total (suc fuel) call s w walk idle h =
      run_loop_round fuel call s w walk (run_loop_total fuel call s) h
        (next_step-idle s w walk idle)

  run_total :
      (call : Execute) (s : Setup) (w : World) (walk : Walk)
      → start s w ≡ some walk
      → is_awaiting walk.state ≡ false
      → (r : Finish × World) × (run call s w ≡ some r)
  unfolding run run_started
  run_total call s w walk e idle =
      let (r, found) = run_loop_total (suc (length walk.order)) call s w walk idle (omega arith) in
      ((finish r.0, r.1), rw (e, run_started, found))

  -- Where no two nodes have one id, a run returns, whatever the executors do: the sort ends, and the
  -- driver's loop is over within one round for each place of the order and one more.
  pub run_returns :
      (call : Execute) (s : Setup) (w : World)
      → length (dedup_extend [] (node_ids s.graph)) ≡ length (node_ids s.graph)
      → (r : Finish × World) × (run call s w ≡ some r)
  run_returns call s w unique =
      let (walk, e, idle) = start_total s w unique in run_total call s w walk e idle
