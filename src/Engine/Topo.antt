-- ===== src/Engine/Topo.antt =====
-- engine/walk.rs, `topo_sort`: Kahn's algorithm.
pub mod Index
pub mod Sorted
pub mod Result
pub mod Places
pub mod Invariant
pub mod Pending
pub mod Counts
use fancy_flow_rs.Prelude.{
  ℕ, zero, suc, ◌+◌, ◌-◌, List, [], ◌∷◌, ◌++◌, map, String, Option, some, none, if◌then◌else◌, ◌==◌,
  nat_beq, length, ◌&&◌,
}
use fancy_flow_rs.Prelude.BTreeMap
use fancy_flow_rs.Prelude.BTreeMap.{BTreeMap}
use fancy_flow_rs.Platform.{Platform}
use fancy_flow_rs.Schema.{FlowEdge, FlowGraph}
use fancy_flow_rs.Registry.KindId.{dedup_extend}

-- `out_of_fuel` stands for a loop that has not ended yet.
pub data TopoResult : Type 0 where
  out_of_fuel : TopoResult
  cycle : TopoResult
  ordered : List ℕ → TopoResult

-- The loop's variables: `queue` holds what stands in the source's queue from `at` on.
pub record Frontier : Type 0 where
  pub in_degree : List ℕ
  pub queue : List ℕ

abbrev pub degree : List ℕ → ℕ → ℕ
degree [] i = 0
degree (d ∷ l) zero = d
degree (d ∷ l) (suc i) = degree l i

abbrev pub set_degree : List ℕ → ℕ → ℕ → List ℕ
set_degree [] i v = []
set_degree (d ∷ l) zero v = v ∷ l
set_degree (d ∷ l) (suc i) v = d ∷ set_degree l i v

abbrev pub zeros : ℕ → List ℕ
zeros zero = []
zeros (suc n) = 0 ∷ zeros n

unfoldable pub index_ids : BTreeMap ℕ → ℕ → List String → BTreeMap ℕ
unfolding BTreeMap.insert
index_ids index i [] = index
index_ids index i (id ∷ ids) = index_ids (BTreeMap.insert index id i) (i + 1) ids

unfoldable pub count_edges : BTreeMap ℕ → List FlowEdge → List ℕ → List ℕ
unfolding BTreeMap.get
count_edges index [] in_degree = in_degree
count_edges index (edge ∷ edges) in_degree =
    count_edges index edges (elim (BTreeMap.get index edge.target) [
      | some target ↦ set_degree in_degree target (degree in_degree target + 1)
      | none ↦ in_degree
    ])

-- The indices at which the degree is zero, counted from `i`.
unfoldable pub zero_degrees : ℕ → List ℕ → List ℕ
zero_degrees i [] = []
zero_degrees i (d ∷ l) = let rest = zero_degrees (i + 1) l in if nat_beq d 0 then i ∷ rest else rest

-- `in_degree[target].saturating_sub(1)`, and the push at zero.
unfoldable pub lower : ℕ → Frontier → Frontier
lower target f =
    let d = degree f.in_degree target - 1 in
    record {
      in_degree = set_degree f.in_degree target d;
      queue = if nat_beq d 0 then f.queue ++ target ∷ [] else f.queue;
    }

unfoldable pub relax : BTreeMap ℕ → String → FlowEdge → Frontier → Frontier
unfolding lower BTreeMap.get
relax index node_id edge f =
    if edge.source == node_id
    then elim (BTreeMap.get index edge.target) [ some target ↦ lower target f | none ↦ f ]
    else f

unfoldable pub release : BTreeMap ℕ → String → List FlowEdge → Frontier → Frontier
unfolding relax
release index node_id [] f = f
release index node_id (edge ∷ edges) f = release index node_id edges (relax index node_id edge f)

-- `graph.nodes[index].id`
abbrev pub id_at : List String → ℕ → String
id_at [] i = ""
id_at (id ∷ ids) zero = id
id_at (id ∷ ids) (suc i) = id_at ids i

-- The `while` loop. A round takes one index off the queue.
unfoldable pub drain :
    ℕ → BTreeMap ℕ → List String → List FlowEdge → List ℕ → Frontier → Option (List ℕ)
unfolding release
drain zero index ids edges done f = none
drain (suc fuel) index ids edges done f = elim f.queue [
  | [] ↦ some done
  | u ∷ rest ↦
      drain fuel index ids edges (done ++ u ∷ [])
        (release index (id_at ids u) edges (record f { queue = rest }))
]

unfoldable pub start_frontier : List String → List FlowEdge → Frontier
unfolding index_ids count_edges zero_degrees
start_frontier ids edges =
    let in_degree = count_edges (index_ids [] 0 ids) edges (zeros (length ids)) in
    record { in_degree = in_degree; queue = zero_degrees 0 in_degree }

-- The last test: every node placed, and the ids distinct.
unfoldable pub accept : List String → Option (List ℕ) → TopoResult
unfolding dedup_extend
accept ids none = out_of_fuel
accept ids (some done) =
    if nat_beq (length done) (length ids) && nat_beq (length (dedup_extend [] ids)) (length ids)
    then ordered done
    else cycle

unfoldable pub sort_ids : ℕ → List String → List FlowEdge → TopoResult
unfolding accept drain start_frontier index_ids
sort_ids fuel ids edges =
    accept ids (drain fuel (index_ids [] 0 ids) ids edges [] (start_frontier ids edges))

module _ ⦃P : Platform⦄ where
  abbrev pub node_ids : FlowGraph → List String
  node_ids graph = map (λ n. n.id) graph.nodes

  -- With distinct ids one round for each node and the last test are enough
  -- (`Engine.Topo.Result`).
  unfoldable pub topo_sort : FlowGraph → TopoResult
  unfolding sort_ids
  topo_sort graph = sort_ids (suc (length graph.nodes)) (node_ids graph) graph.edges
