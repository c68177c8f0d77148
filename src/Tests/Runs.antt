-- ===== src/Tests/Runs.antt =====
-- Runs of small graphs, a graph on which the sort does not end, and two ports with one key.
use fancy_flow_rs.Prelude.{
  ℕ, zero, suc, List, [], ◌∷◌, ◌++◌, String, Bool, true, Option, some, none, ◌≡◌, refl,
}
use fancy_flow_rs.Schema.{FlowEdge, FlowGraph}
use fancy_flow_rs.Engine.Topo.{
  Frontier, topo_sort, ordered, out_of_fuel, cycle, drain, sort_ids, index_ids,
}
use fancy_flow_rs.Engine.Walk.{port_key}
use fancy_flow_rs.Durable.Store.{in_memory}
use fancy_flow_rs.Durable.Coordinator.{Session, DurableRunResult}
use fancy_flow_rs.Durable.Completion.{run_to_completion}
use fancy_flow_rs.Tests.Sample.{sample, line, setup, answer, node, edge, text, Json}
use fancy_flow_rs.Tests.Walks.{coordinator, session}

line_order : topo_sort line ≡ ordered (0 ∷ 1 ∷ [])
unfolding topo_sort
line_order = refl

abbrev loop : FlowGraph
loop = record { nodes = node "a" ∷ node "b" ∷ []; edges = edge "a" "b" ∷ edge "b" "a" ∷ [] }

loop_cycle : topo_sort loop ≡ cycle
unfolding topo_sort
loop_cycle = refl

-- Two nodes with one id, and an edge from the id to itself.
abbrev twins : List String
twins = "a" ∷ "a" ∷ []

abbrev self_edge : List FlowEdge
self_edge = edge "a" "a" ∷ []

abbrev requeued : Frontier
requeued = record { in_degree = 0 ∷ 0 ∷ []; queue = 1 ∷ [] }

drain-twins :
    (fuel : ℕ) (done : List ℕ)
    → drain fuel (index_ids [] 0 twins) twins self_edge done requeued ≡ none
unfolding drain index_ids
drain-twins zero done = refl
drain-twins (suc fuel) done = drain-twins fuel (done ++ 1 ∷ [])

-- No number of rounds is enough.
twins_endless : (fuel : ℕ) → sort_ids fuel twins self_edge ≡ out_of_fuel
unfolding sort_ids
twins_endless zero = refl
twins_endless (suc fuel) = rw (drain-twins fuel (0 ∷ [])) refl

-- Two ports of different nodes with one key.
one_key : port_key "a:b" "c" ≡ port_key "a" "b:c"
unfolding port_key
one_key = refl

abbrev ok_after : Option (DurableRunResult × Session) → Option (Bool × ℕ)
ok_after (some (result, s)) = some (result.ok, s.world)
ok_after none = none

-- The coordinator runs both nodes of the line, each once.
line_completes : ok_after (run_to_completion coordinator none (session [])) ≡ some (true, 7)
unfolding run_to_completion fancy_flow_rs.Durable.State.state fancy_flow_rs.Durable.State.claim
    fancy_flow_rs.Tests.Sample.get_field fancy_flow_rs.Tests.Sample.insert_field
    fancy_flow_rs.Durable.State.complete
line_completes = refl
