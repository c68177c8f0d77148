-- ===== src/Engine/Topo/Result.antt =====
-- What `topo_sort` returns, in the words of the graph.
use fancy_flow_rs.Prelude.{
  ℕ, suc, ◌<◌, List, [], ◌∷◌, ◌++◌, map, append-nil, append_assoc, String, true, Option, some, none,
  ◌&&◌, ◌≡◌, ◌≢◌, ◌⊎◌, inl, inr, refl, sym, ap, subst, ◌∙◌, arith, nat_beq, Bool-cases, length,
}
use mathlib.Core.List.{Memᴰ}
use fancy_flow_rs.Prelude.BTreeMap
use fancy_flow_rs.Platform.{Platform}
use fancy_flow_rs.Schema.{FlowNode, FlowEdge, FlowGraph}
use fancy_flow_rs.Registry.KindId.{contains, dedup_extend}
use fancy_flow_rs.Engine.Topo.{
  Frontier, cycle, ordered, id_at, index_ids, drain, start_frontier, accept, sort_ids, node_ids,
  topo_sort,
}
use fancy_flow_rs.Engine.Topo.Index.{Distinct, index-known, dedup_extend-Distinct}
use fancy_flow_rs.Engine.Topo.Counts.{
  occurs, occurs-append, Below, Below-left, Below-right, pending,
}
use fancy_flow_rs.Engine.Topo.Places.{total-full, total-length}
use fancy_flow_rs.Engine.Topo.Invariant.{Inv, start-Inv, once-le}
use fancy_flow_rs.Engine.Topo.Sorted.{drain_ends, drain-order, Sources}

-- No edge into the place is pending: the source of each is among the ids.
pending-zero :
    (index : BTreeMap.BTreeMap ℕ) (t : ℕ) (ids : List String) (edges : List FlowEdge) (e : FlowEdge)
    → pending index t ids edges ≡ 0
    → Memᴰ e edges
    → BTreeMap.get index e.target ≡ some t
    → contains ids e.source ≡ true
unfolding pending
pending-zero index t ids [] e z m r = elim m [ ]
pending-zero index t ids (edge ∷ edges) e z (Memᴰ.head h) r =
    let here : BTreeMap.get index edge.target ≡ some t = rw (← h) r in
    let known : contains ids edge.source ≡ true = ground (arith, z, here) in rw h known
pending-zero index t ids (edge ∷ edges) e z (Memᴰ.tail m) r =
    pending-zero index t ids edges e (ground (arith, z)) m r

Sources-at :
    (ids : List String) (edges : List FlowEdge) (d : Distinct ids) (zs xs : List ℕ) (t : ℕ)
    (ys : List ℕ)
    → Sources ids edges d zs (xs ++ t ∷ ys)
    → pending (index_ids [] 0 ids) t (map (id_at ids) (zs ++ xs)) edges ≡ 0
Sources-at ids edges d zs [] t ys s =
    subst (λ l. pending (index_ids [] 0 ids) t (map (id_at ids) l) edges ≡ 0) (sym (append-nil zs))
      s.0
Sources-at ids edges d zs (x ∷ xs) t ys s =
    subst (λ l. pending (index_ids [] 0 ids) t (map (id_at ids) l) edges ≡ 0)
      (append_assoc zs (x ∷ []) xs) (Sources-at ids edges d (zs ++ x ∷ []) xs t ys s.1)

ordered_same : (a b : List ℕ) → ordered a ≡ ordered b → a ≡ b
ordered_same a b e = cc

not_ordered : (l : List ℕ) → cycle ≢ ordered l
not_ordered l e = cc

accept-ordered :
    (ids : List String) (o : Option (List ℕ)) (order : List ℕ)
    → accept ids o ≡ ordered order
    → (o ≡ some order) × (length order ≡ length ids) × (length (dedup_extend [] ids) ≡ length ids)
unfolding accept
accept-ordered ids none order h = cc
accept-ordered ids (some done) order h =
    elim (Bool-cases
      (nat_beq (length done) (length ids) && nat_beq (length (dedup_extend [] ids)) (length ids))) [
        | inl good ↦
            let taken : accept ids (some done) ≡ ordered done = rw good refl in
            let same : done ≡ order = ordered_same done order (sym taken ∙ h) in
            (ap some same, subst (λ l. length l ≡ length ids) same (ground arith), ground arith)
        | inr bad ↦
            let refused : accept ids (some done) ≡ cycle = rw bad refl in
            absurd (not_ordered order (sym refused ∙ h))
      ]

accept-some :
    (ids : List String) (done : List ℕ)
    → (accept ids (some done) ≡ cycle)
      ⊎ ((order : List ℕ) × (accept ids (some done) ≡ ordered order))
unfolding accept
accept-some ids done =
    elim (Bool-cases
      (nat_beq (length done) (length ids) && nat_beq (length (dedup_extend [] ids)) (length ids))) [
        | inl good ↦ inr (done, rw good refl)
        | inr bad ↦ inl (rw bad refl)
      ]

length-node_ids :
    ⦃P : Platform⦄ (nodes : List FlowNode) → length (map (λ n. n.id) nodes) ≡ length nodes
length-node_ids [] = refl
length-node_ids (n ∷ nodes) = ap suc (length-node_ids nodes)

module _ ⦃P : Platform⦄ (graph : FlowGraph) where
  abbrev ids : List String
  ids = node_ids graph

  -- Where no two nodes have one id, the sort ends: with an order, or with the answer that there is
  -- a cycle.
  pub topo_sort_total :
      length (dedup_extend [] (node_ids graph)) ≡ length (node_ids graph)
      → (topo_sort graph ≡ cycle) ⊎ ((order : List ℕ) × (topo_sort graph ≡ ordered order))
  unfolding topo_sort sort_ids
  topo_sort_total unique =
      let d = dedup_extend-Distinct ids unique in
      let (done, found) =
        drain_ends ids graph.edges d (suc (length graph.nodes)) [] (start_frontier ids graph.edges)
          (start-Inv ids graph.edges d) (omega (arith, length-node_ids graph.nodes)) in
      rw found (accept-some ids done)

  module _ (order : List ℕ) (h : topo_sort graph ≡ ordered order) where
    sorted :
        (d : Distinct ids) × (length order ≡ length ids)
        × Sources ids graph.edges d [] order
        × ((last : Frontier) × Inv ids graph.edges d order last)
    unfolding topo_sort sort_ids
    sorted =
        let (found, size, unique) =
          accept-ordered ids
            (drain (suc (length graph.nodes)) (index_ids [] 0 ids) ids graph.edges []
              (start_frontier ids graph.edges))
            order h in
        let d = dedup_extend-Distinct ids unique in
        let (more, split, sources, last) =
          drain-order ids graph.edges d (suc (length graph.nodes)) []
            (start_frontier ids graph.edges) order (start-Inv ids graph.edges d) found in
        (d, size, subst (Sources ids graph.edges d []) (sym split) sources, last)

  -- An order that the sort returns has every node of the graph exactly once, and nothing else.
  pub topo_sort-once :
      (order : List ℕ) (t : ℕ)
      → topo_sort graph ≡ ordered order
      → t < length graph.nodes
      → (length order ≡ length graph.nodes) × (occurs t order ≡ 1)
  topo_sort-once order t h inside =
      let (d, size, sources, (last, inv)) = sorted order h in
      let nodes = length-node_ids graph.nodes in
      let below = Below-left (length ids) order last.queue inv.inside in
      (
        size ∙ nodes,
        total-full (length ids) order
            (λ i p. omega (
              arith,
              once-le ids graph.edges d order last inv i p,
              occurs-append i order last.queue,
            ))
            (total-length (length ids) order below ∙ size) t (omega (arith, inside, nodes)),
      )

  -- In an order that the sort returns, the sources of all edges into a node stand before the node.
  pub topo_sort-sources :
      (order xs ys : List ℕ) (t : ℕ) (edge : FlowEdge)
      → topo_sort graph ≡ ordered order
      → order ≡ xs ++ t ∷ ys
      → Memᴰ edge graph.edges
      → edge.target ≡ id_at (node_ids graph) t
      → contains (map (id_at (node_ids graph)) xs) edge.source ≡ true
  topo_sort-sources order xs ys t edge h split m into =
      let (d, size, sources, (last, inv)) = sorted order h in
      let none_left : pending (index_ids [] 0 ids) t (map (id_at ids) xs) graph.edges ≡ 0 =
        Sources-at ids graph.edges d [] xs t ys
          (subst (Sources ids graph.edges d []) split sources) in
      let placed = Below-left (length ids) order last.queue inv.inside in
      let inside : t < length ids =
        (Below-right (length ids) xs (t ∷ ys) (subst (Below (length ids)) split placed)).0 in
      let read : BTreeMap.get (index_ids [] 0 ids) edge.target ≡ some t =
        rw into (index-known ids t d inside) in
      pending-zero (index_ids [] 0 ids) t (map (id_at ids) xs) graph.edges edge none_left m read
