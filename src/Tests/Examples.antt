-- ===== src/Tests/Examples.antt =====
-- The theorems at concrete inputs.
use fancy_flow_rs.Prelude.{
  ℕ, ◌+◌, ◌-◌, ◌≤◌, List, [], ◌∷◌, ◌++◌, String, true, false, Option, some, none, ◌≡◌, ◌≢◌, ◌⊎◌,
  refl, arith, eq_iff, length, min, max,
}
use fancy_flow_rs.Prelude.{pos}
use fancy_flow_rs.Prelude.BTreeMap
use fancy_flow_rs.Prelude.BTreeMap.{BTreeMap}
use fancy_flow_rs.Schema.{FlowGraph, FlowNode, FlowEdge}
use fancy_flow_rs.Engine.Walk.{
  Setup, Walk, Step, start, walking, finished, collect_inputs, is_finished, is_awaiting,
}
use fancy_flow_rs.Engine.Walk.Inputs.{get-collect_inputs, last_active}
use fancy_flow_rs.Engine.Stepping.{Finish, run, next_step}
use fancy_flow_rs.Engine.Stepping.Progress.{next_step_total, Stepped}
use fancy_flow_rs.Engine.Stepping.Total.{run_returns}
use fancy_flow_rs.Durable.State.{
  NodeState, RunState, InMemoryClaimStore, NodeRunStatus, new_state, claim, skip, first_claim,
  claimed, completed, skipped, settled_row,
}
use fancy_flow_rs.Durable.State.Rows.{
  row_at, row_at-apply, apply, row_after, claim_op, complete_op, skip_op,
}
use fancy_flow_rs.Durable.State.History.{Call, replay, Dated, row_at-replay-Dated}
use fancy_flow_rs.Durable.State.Claims.{race, HeldBy, claim-exclusive}
use fancy_flow_rs.Durable.Dispatch.{select_dispatch, select_dispatch_budget, held_count}
use fancy_flow_rs.Durable.Frontier.{compute, final_cascade}
use fancy_flow_rs.Durable.Frontier.Ends.{final_cascade_ends}
use fancy_flow_rs.Durable.Frontier.Runnable.{compute-IsRunnable}
use fancy_flow_rs.Durable.Frontier.Runnable.{IsRunnable}
use fancy_flow_rs.Registry.KindId.{dedup_extend}
use fancy_flow_rs.Tests.Sample.{get_field, sample, line, setup, answer, node, edge, text}

-- A store in which the worker `w1` holds `a`.
abbrev held_row : NodeState
held_row = record {
  status = claimed;
  ports = [];
  output = none;
  error = none;
  owner = some "w1";
  attempts = 1;
  first_attempt_at = some (pos 7);
}

abbrev done_row : NodeState
done_row = record held_row { status = completed; ports = "out" ∷ []; output = some (text "done") }

abbrev held : InMemoryClaimStore
held = ("run", ("a", held_row) ∷ []) ∷ []

abbrev settled : InMemoryClaimStore
settled = ("run", ("a", done_row) ∷ []) ∷ []

row_at-apply_example :
    row_at (apply (claim_op "w2" (pos 9)) held "run" "b") "run" "b"
    ≡ row_after (claim_op "w2" (pos 9)) none
unfolding BTreeMap.get fancy_flow_rs.Durable.State.state
row_at-apply_example = row_at-apply (claim_op "w2" (pos 9)) held "run" "b" "run" "b"

differ : ◌≢◌ {A = String} "w1" "w2"
differ e = ground (arith, eq_iff "w1" "w2")

claim-exclusive_example :
    ((race (claim [] "run" "a" "w1" (pos 7)).0 "run" "a" (("w2", pos 8) ∷ [])).1 ≡ 0)
    × HeldBy "w1" (
        row_at
          (race (claim [] "run" "a" "w1" (pos 7)).0 "run" "a" (("w2", pos 8) ∷ [])).0
          "run"
          "a")
unfolding claim
claim-exclusive_example =
    claim-exclusive [] "run" "a" "w1" (pos 7) (("w2", pos 8) ∷ []) refl (differ, tt)

-- A retry, and then the end of the node.
abbrev calls : List Call
calls =
    record { op = claim_op "w1" (pos 50); run = "run"; node = "a" }
    ∷ record { op = complete_op (text "done") ("out" ∷ []); run = "run"; node = "a" }
    ∷ []

row_at-replay-Dated_example : Dated (pos 7) (row_at (replay held calls) "run" "a")
unfolding BTreeMap.get fancy_flow_rs.Durable.State.state
row_at-replay-Dated_example =
    row_at-replay-Dated calls held "run" "a" (pos 7) (refl, (refl, tt)) refl

abbrev late_calls : List Call
late_calls =
    record { op = claim_op "w2" (pos 50); run = "run"; node = "a" }
    ∷ record { op = skip_op; run = "run"; node = "a" }
    ∷ []

-- The row of a run of `line` in which `a` has completed.
abbrev a_done : RunState
a_done = ("a", done_row) ∷ []

compute-IsRunnable_example : IsRunnable line a_done (compute line a_done).skipped "b"
unfolding compute
compute-IsRunnable_example = compute-IsRunnable line a_done "b" (refl, tt) refl

final_cascade_ends_example : (final_cascade line a_done).changed ≡ false
final_cascade_ends_example = final_cascade_ends line a_done

select_dispatch_budget_example :
    ((rest : List String) × (select_dispatch ("b" ∷ "c" ∷ []) a_done 1 ++ rest ≡ "b" ∷ "c" ∷ []))
    × (length (select_dispatch ("b" ∷ "c" ∷ []) a_done 1) ≡ min (1 - held_count a_done) 2)
    × (length (select_dispatch ("b" ∷ "c" ∷ []) a_done 1) + held_count a_done
        ≤ max 1 (held_count a_done))
select_dispatch_budget_example = select_dispatch_budget ("b" ∷ "c" ∷ []) a_done 1 (omega arith)

-- The walk of `line` at its start.
abbrev first_walk : Walk
first_walk = record {
  order = 0 ∷ 1 ∷ [];
  cursor = 0;
  state = walking;
  port_values = ("a:out", text "done") ∷ [];
  outputs = [];
  events = [];
  errors = [];
  cancelled = none;
  started_at = none;
}

next_step_total_example :
    ((is_awaiting first_walk.state ≡ true) × (next_step setup 0 first_walk ≡ none))
    ⊎ ((is_awaiting first_walk.state ≡ false)
        × ((r : Walk × Option Step) × (next_step setup 0 first_walk ≡ some r)
            × Stepped first_walk r))
next_step_total_example = next_step_total setup 0 first_walk

run_returns_example : (r : Finish × ℕ) × (run answer setup 0 ≡ some r)
unfolding dedup_extend
run_returns_example = run_returns answer setup 0 refl

get-collect_inputs_example :
    get_field (collect_inputs setup (node "b") (edge "a" "b" ∷ []) first_walk) "in"
    ≡ some (text "done")
unfolding last_active fancy_flow_rs.Schema.target_port BTreeMap.get
    fancy_flow_rs.Engine.Walk.edge_key
get-collect_inputs_example = get-collect_inputs setup (node "b") (edge "a" "b" ∷ []) first_walk "in"
