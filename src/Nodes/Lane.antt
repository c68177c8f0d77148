-- ===== src/Nodes/Lane.antt =====
-- nodes/logic.rs: the part of the graph that a `for_each` node repeats.
pub mod Body
pub mod Adjacency
pub mod Search
use fancy_flow_rs.Prelude.{
  ℕ, zero, suc, ◌+◌, List, [], ◌∷◌, ◌++◌, map, String, Bool, true, false, not, Option, some, none,
  if◌then◌else◌, ◌==◌, ◌&&◌, length,
}
use fancy_flow_rs.Prelude.BTreeMap
use fancy_flow_rs.Prelude.BTreeMap.{BTreeMap}
use fancy_flow_rs.Platform.{Platform}
use fancy_flow_rs.Schema.{FlowEdge, FlowNode, FlowGraph, source_port}
use fancy_flow_rs.Registry.KindId.{contains}

abbrev pub filter_by {ℓ} : {A : Type ℓ} → (A → Bool) → List A → List A
filter_by p [] = []
filter_by p (x ∷ l) = let rest = filter_by p l in if p x then x ∷ rest else rest

abbrev pub listed : Option (List String) → List String
listed (some targets) = targets
listed none = []

unfoldable pub add_edge : BTreeMap (List String) → FlowEdge → BTreeMap (List String)
unfolding BTreeMap.get BTreeMap.insert
add_edge adjacency edge =
    BTreeMap.insert adjacency edge.source
      (listed (BTreeMap.get adjacency edge.source) ++ edge.target ∷ [])

-- The targets of the edges out of each node.
unfoldable pub adjacency_of : BTreeMap (List String) → List FlowEdge → BTreeMap (List String)
unfolding add_edge
adjacency_of adjacency [] = adjacency
adjacency_of adjacency (edge ∷ edges) = adjacency_of (add_edge adjacency edge) edges

-- `Vec::extend`, on a stack with its top first.
unfoldable pub push_all : List String → List String → List String
push_all queue [] = queue
push_all queue (id ∷ ids) = push_all (id ∷ queue) ids

-- `none` where the rounds run out.
unfoldable pub search :
    ℕ → BTreeMap (List String) → List String → List String → Option (List String)
unfolding push_all contains BTreeMap.get
search fuel adjacency seen [] = some seen
search zero adjacency seen (id ∷ queue) = none
search (suc fuel) adjacency seen (id ∷ queue) = elim (contains seen id) [
  | true ↦ search fuel adjacency seen queue
  | false ↦ search fuel adjacency (id ∷ seen) (push_all queue (listed (BTreeMap.get adjacency id)))
]

-- A round for each start and for each edge.
unfoldable pub reachable : List FlowEdge → List String → Option (List String)
unfolding search adjacency_of push_all
reachable edges starts =
    search (length starts + length edges) (adjacency_of [] edges) [] (push_all [] starts)

unfoldable pub edges_from : List FlowEdge → String → String → List FlowEdge
unfolding source_port
edges_from edges node_id port =
    filter_by (λ edge. edge.source == node_id && source_port edge == port) edges

abbrev pub targets : List FlowEdge → List String
targets = map (λ edge. edge.target)

-- The nodes of the lane, as a test on ids.
abbrev pub in_body : List String → List String → String → String → Bool
in_body done found node_id id = contains found id && not (contains done id) && not (id == node_id)

module _ ⦃P : Platform⦄ where
  abbrev lane_of :
      FlowGraph → String → List FlowEdge → List String → List String → FlowGraph × List FlowEdge
  lane_of graph node_id item_edges done found =
      let body = in_body done found node_id in
      (
        record {
          nodes = filter_by (λ node. body node.id) graph.nodes;
          edges = filter_by (λ edge. body edge.source && body edge.target) graph.edges;
        },
        filter_by (λ edge. body edge.target) item_edges,
      )

  pub data Lane : Type 0 where
    no_item_edge : Lane
    lane : FlowGraph → List FlowEdge → Lane
    unfinished : Lane

  abbrev found_lane :
      FlowGraph → String → List FlowEdge → Option (List String) → Option (List String) → Lane
  found_lane graph node_id item_edges (some done) (some found) =
      let (body, entries) = lane_of graph node_id item_edges done found in lane body entries
  found_lane graph node_id item_edges (some done) none = unfinished
  found_lane graph node_id item_edges none found = unfinished

  unfoldable pub for_each_lane : FlowGraph → String → Lane
  unfolding reachable edges_from contains
  for_each_lane graph node_id = elim (edges_from graph.edges node_id "item") [
    | [] ↦ no_item_edge
    | edge ∷ edges ↦
        found_lane graph node_id (edge ∷ edges)
          (reachable graph.edges (targets (edges_from graph.edges node_id "done")))
          (reachable graph.edges (targets (edge ∷ edges)))
  ]
