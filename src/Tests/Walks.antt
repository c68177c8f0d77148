-- ===== src/Tests/Walks.antt =====
-- The theorems about the sort, the walk and a call of the coordinator, at concrete inputs.
use fancy_flow_rs.Prelude.{ℕ, List, [], ◌∷◌, true, some, none, ◌≡◌, ◌⊎◌, refl, arith, length}
use mathlib.Core.List.{Memᴰ}
use fancy_flow_rs.Prelude.{pos}
use fancy_flow_rs.Registry.KindId.{contains, dedup_extend}
use fancy_flow_rs.Registry.Catalogue.{empty_registry}
use fancy_flow_rs.Executors.{host}
use fancy_flow_rs.Engine.Topo.{cycle, ordered, topo_sort}
use fancy_flow_rs.Engine.Topo.Counts.{occurs}
use fancy_flow_rs.Engine.Topo.Result.{topo_sort_total, topo_sort-once, topo_sort-sources}
use fancy_flow_rs.Engine.Walk.{Walk, walking, awaiting_outcome}
use fancy_flow_rs.Engine.Stepping.{next_step}
use fancy_flow_rs.Engine.Stepping.Entry.{IsEntered, next_step-IsEntered}
use fancy_flow_rs.Runtime.Events.{run_start, node_status, running, done, node_output, run_end}
use fancy_flow_rs.Durable.State.{completed, InMemoryClaimStore, first_claim}
use fancy_flow_rs.Durable.Store.{in_memory}
use fancy_flow_rs.Durable.Retry.{default_policy}
use fancy_flow_rs.Durable.Coordinator.{
  node_completed, Coordinator, Session, NodeOutcome, new_outcome, node_completed,
}
use fancy_flow_rs.Durable.RunNode.{run_node}
use fancy_flow_rs.Durable.RunNode.Outcome.{run_node-IsRecorded, Records}
use fancy_flow_rs.Tests.Sample.{sample, line, bound, setup, answer, node, edge, text, Json}

topo_sort_total_example :
    (topo_sort line ≡ cycle) ⊎ ((order : List ℕ) × (topo_sort line ≡ ordered order))
unfolding dedup_extend
topo_sort_total_example = topo_sort_total line refl

topo_sort-once_example :
    (length {A = ℕ} (0 ∷ 1 ∷ []) ≡ length (line.nodes)) × (occurs 1 (0 ∷ 1 ∷ []) ≡ 1)
unfolding topo_sort
topo_sort-once_example = topo_sort-once line (0 ∷ 1 ∷ []) 1 refl (omega arith)

topo_sort-sources_example : contains ("a" ∷ []) "a" ≡ true
unfolding topo_sort
topo_sort-sources_example =
    topo_sort-sources line (0 ∷ 1 ∷ []) (0 ∷ []) [] 1 (edge "a" "b") refl refl (Memᴰ.head refl) refl

abbrev pub begun : Walk
begun = record {
  order = 0 ∷ 1 ∷ [];
  cursor = 0;
  state = walking;
  port_values = [];
  outputs = [];
  events = run_start ∷ [];
  errors = [];
  cancelled = none;
  started_at = none;
}

abbrev entered : Walk
entered = record begun {
  state = awaiting_outcome;
  events = run_start ∷ node_status "a" running none ∷ [];
}

next_step-IsEntered_example :
    IsEntered setup entered (record { index = 0; node = node "a"; executor = host 0 })
unfolding next_step
next_step-IsEntered_example =
    next_step-IsEntered setup 0 begun entered
      (record { index = 0; node = node "a"; executor = host 0 }) refl

abbrev pub coordinator : Coordinator
coordinator = record {
  graph = line;
  executors = bound;
  run = record { run_key = "run"; path = []; attempt = 1; first_attempt_at = pos 0 };
  clock = λ w. pos w;
  initial_inputs = [];
  retry = default_policy;
  kinds = none;
  builtin = empty_registry;
  listening = true;
  max_concurrent = 1;
  call = answer;
}

abbrev pub session : InMemoryClaimStore → Session
session store = record { store = store; world = 5; minted = 0; delivered = [] }

abbrev taken : InMemoryClaimStore
taken = ("run", ("a", first_claim "w1" (pos 3)) ∷ []) ∷ []

-- A claim by the worker that holds the node: the executor runs again, and the row completes.
abbrev again_done : NodeOutcome × Session
again_done = (
  record (new_outcome "a" node_completed 2) { output = some (text "done"); ports = "out" ∷ [] },
  record {
    store =
        (
          "run",
          (
            "a",
            record (first_claim "w1" (pos 3)) {
              status = completed;
              ports = "out" ∷ [];
              output = some (text "done");
              attempts = 2;
            },
          )
              ∷ [],
        )
        ∷ [];
    world = 6;
    minted = 0;
    delivered =
        run_start
        ∷ node_status "a" running none
        ∷ node_output "a" "out" (text "done")
        ∷ node_status "a" done none
        ∷ run_end true
        ∷ [];
  },
)

run_node-IsRecorded_example : Records coordinator "a" "w1" (session taken) again_done "run" "b"
unfolding run_node fancy_flow_rs.Durable.State.claim fancy_flow_rs.Tests.Sample.get_field
    fancy_flow_rs.Tests.Sample.insert_field fancy_flow_rs.Durable.State.complete
run_node-IsRecorded_example =
    run_node-IsRecorded coordinator "a" "w1" (session taken) again_done "run" "b" refl
