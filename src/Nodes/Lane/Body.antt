-- ===== src/Nodes/Lane/Body.antt =====
-- Which nodes and edges the lane holds.
use mathlib.Core.List.{Memᴰ}
use mathlib.Core.List.Memᴰ
use fancy_flow_rs.Prelude.{
  List, [], ◌∷◌, String, Bool, true, some, ◌&&◌, ◌≡◌, ◌≢◌, ◌↔◌, refl, subst, sym, ◌∙◌, arith,
  eq_iff, inl, inr, Bool-cases, ne→==-false,
}
use fancy_flow_rs.Platform.{Platform}
use fancy_flow_rs.Schema.{FlowEdge, FlowNode, FlowGraph}
use fancy_flow_rs.Registry.KindId.{contains}
use fancy_flow_rs.Nodes.Lane.{
  filter_by, targets, edges_from, in_body, reachable, Lane, no_item_edge, lane, unfinished,
  for_each_lane, found_lane,
}
use fancy_flow_rs.Nodes.Lane.Search.{Reach, reachable_total}

module _ {ℓ} {A : Type ℓ} (p : A → Bool) where
  filter_by-mem : (l : List A) (x : A) → Memᴰ x (filter_by p l) → Memᴰ x l × (p x ≡ true)
  filter_by-mem [] x m = absurd (Memᴰ.not-nil m)
  filter_by-mem (y ∷ l) x m = elim (Bool-cases (p y)) [
    | inr dropped ↦ let (n, h) = filter_by-mem l x (rw dropped at m) in (Memᴰ.tail n, h)
    | inl kept ↦ elim (Memᴰ.cases_cons (rw kept at m)) [
      | inl same ↦ (Memᴰ.head same, subst (λ z. p z ≡ true) (sym same) kept)
      | inr rest ↦ let (n, h) = filter_by-mem l x rest in (Memᴰ.tail n, h)
    ]
  ]

  mem-filter_by : (l : List A) (x : A) → Memᴰ x l → p x ≡ true → Memᴰ x (filter_by p l)
  mem-filter_by [] x m h = m
  mem-filter_by (y ∷ l) x m h = elim (Memᴰ.cases_cons m) [
    | inl same ↦ let kept : p y ≡ true = subst (λ z. p z ≡ true) same h in rw kept (Memᴰ.head same)
    | inr rest ↦ elim (Bool-cases (p y)) [
      | inl kept ↦ rw kept (Memᴰ.tail (mem-filter_by l x rest h))
      | inr dropped ↦ rw dropped (mem-filter_by l x rest h)
    ]
  ]

module _ ⦃P : Platform⦄ (graph : FlowGraph) (node_id : String) where
  abbrev pub from_port : String → List String
  from_port port = targets (edges_from graph.edges node_id port)

  -- A walk leads to the node from the port `item`, none does from the port `done`, and it is not the
  -- `for_each` node.
  abbrev pub InBody : String → Type 0
  InBody id =
      Reach graph.edges (from_port "item") id
      × (¬ Reach graph.edges (from_port "done") id)
      × (id ≢ node_id)

  abbrev pub Derived : Lane → Type 0
  Derived no_item_edge = edges_from graph.edges node_id "item" ≡ []
  Derived unfinished = ⊥
  Derived (lane body entries) =
      (edges_from graph.edges node_id "item" ≢ [])
      × ((node : FlowNode) → Memᴰ node body.nodes ↔ (Memᴰ node graph.nodes × InBody node.id))
      × ((edge : FlowEdge)
          → Memᴰ edge body.edges
            ↔ (Memᴰ edge graph.edges × InBody edge.source × InBody edge.target))
      × ((edge : FlowEdge)
          → Memᴰ edge entries
            ↔ (Memᴰ edge (edges_from graph.edges node_id "item") × InBody edge.target))

  module _ (done found : List String)
      (done_lem : (id : String)
        → (contains done id ≡ true) ↔ Reach graph.edges (from_port "done") id)
      (found_lem : (id : String)
        → (contains found id ≡ true) ↔ Reach graph.edges (from_port "item") id) where
    in_body_iff : (id : String) → (in_body done found node_id id ≡ true) ↔ InBody id
    in_body_iff id = (
      λ h. (
        (found_lem id).0 (ground arith),
        λ r. absurd (ground (arith, (done_lem id).1 r)),
        λ e. absurd (ground (arith, (eq_iff id node_id).1 e)),
      ),
      λ (r, out, other). elim (Bool-cases (contains done id)) [
        | inl reached ↦ absurd (out ((done_lem id).0 reached))
        | inr apart ↦ ground (arith, (found_lem id).1 r, ne→==-false id node_id other)
      ],
    )

    abbrev kept : String → Bool
    kept id = in_body done found node_id id

    found_lane-Derived :
        (item_edges : List FlowEdge)
        → edges_from graph.edges node_id "item" ≡ item_edges
        → item_edges ≢ []
        → Derived (found_lane graph node_id item_edges (some done) (some found))
    found_lane-Derived item_edges e some_edge = (
      λ none_left. some_edge (sym e ∙ none_left),
      λ node. (
        λ m.
            let (here, h) = filter_by-mem (λ n. kept n.id) graph.nodes node m in
            (here, (in_body_iff node.id).0 h),
        λ (here, body).
            mem-filter_by (λ n. kept n.id) graph.nodes node here ((in_body_iff node.id).1 body),
      ),
      λ edge. (
        λ m.
            let (here, h) =
              filter_by-mem (λ n. kept n.source && kept n.target) graph.edges edge m in
            (
              here,
              (in_body_iff edge.source).0 (ground arith),
              (in_body_iff edge.target).0 (ground arith),
            ),
        λ (here, from, to).
            mem-filter_by (λ n. kept n.source && kept n.target) graph.edges edge here
              (ground (arith, (in_body_iff edge.source).1 from, (in_body_iff edge.target).1 to)),
      ),
      λ edge. (
        λ m.
            let (here, h) = filter_by-mem (λ n. kept n.target) item_edges edge m in
            (rw e here, (in_body_iff edge.target).0 h),
        λ (here, to).
            mem-filter_by (λ n. kept n.target) item_edges edge (rw e at here)
              ((in_body_iff edge.target).1 to),
      ),
    )

  -- The search for the lane always ends. There is no lane exactly where no edge leaves the node on the
  -- port `item`; else the lane has the nodes of the graph that a walk leads to from the port `item`
  -- and none from the port `done`, without the node itself, the edges between two of them, and as
  -- entries the edges on the port `item` into one of them.
  pub for_each_lane-Derived : Derived (for_each_lane graph node_id)
  unfolding for_each_lane
  for_each_lane-Derived = by_edges (edges_from graph.edges node_id "item") refl
    where
      by_edges :
          (item_edges : List FlowEdge)
          → edges_from graph.edges node_id "item" ≡ item_edges
          → Derived (elim item_edges [
            | [] ↦ no_item_edge
            | edge ∷ edges ↦
                found_lane graph node_id
                  (edge ∷ edges)
                  (reachable graph.edges (from_port "done"))
                  (reachable graph.edges (targets (edge ∷ edges)))
          ])
      by_edges [] e = e
      by_edges (edge ∷ edges) e =
          let (done, ends, done_lem) = reachable_total graph.edges (from_port "done") in
          let (found, ends', found_lem) = reachable_total graph.edges (targets (edge ∷ edges)) in
          rw (ends, ends')
            (found_lane-Derived done found done_lem
              (subst
                (λ l. (id : String) → (contains found id ≡ true) ↔ Reach graph.edges (targets l) id)
                (sym e) found_lem)
              (edge ∷ edges) e (λ z. cc))
