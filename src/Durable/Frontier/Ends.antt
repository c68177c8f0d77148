-- ===== src/Durable/Frontier/Ends.antt =====
-- The loop of `Frontier::compute` ends by its own test: each pass but the last settles a node.
use fancy_flow_rs.Prelude.{
  ℕ, zero, suc, ◌+◌, ◌≤◌, ◌<◌, List, [], ◌∷◌, String, false, if◌then◌else◌, ◌≡◌, ◌⊎◌, inl, inr,
  refl, arith, eq_refl, Bool-cases, length, all,
}
use mathlib.Core.List.{Memᴰ}
use fancy_flow_rs.Prelude.BTreeMap
use fancy_flow_rs.Prelude.BTreeMap.{BTreeMap, contains_key-insert}
use fancy_flow_rs.Platform.{Platform}
use fancy_flow_rs.Schema.{FlowNode, FlowEdge, FlowGraph}
use fancy_flow_rs.Durable.State.{RunState}
use fancy_flow_rs.Durable.Frontier.{
  Cascade, settle_skip, decide, decided, visit, pass, cascade, start_cascade, held_rows,
  final_cascade,
}

module _ ⦃P : Platform⦄ where
  -- How many of the nodes are not settled.
  open_nodes : List FlowNode → BTreeMap (List String) → ℕ
  open_nodes [] settled = 0
  open_nodes (node ∷ nodes) settled =
      (if BTreeMap.contains_key settled node.id then 0 else 1) + open_nodes nodes settled

  open_nodes-le :
      (nodes : List FlowNode) (settled : BTreeMap (List String))
      → open_nodes nodes settled ≤ length nodes
  unfolding open_nodes
  open_nodes-le [] settled = omega arith
  open_nodes-le (node ∷ nodes) settled = ground (arith, open_nodes-le nodes settled)

  open_nodes-insert-le :
      (nodes : List FlowNode) (settled : BTreeMap (List String)) (id : String)
      → open_nodes nodes (BTreeMap.insert settled id []) ≤ open_nodes nodes settled
  unfolding open_nodes
  open_nodes-insert-le [] settled id = omega arith
  open_nodes-insert-le (node ∷ nodes) settled id =
      ground
        (arith, open_nodes-insert-le nodes settled id, contains_key-insert settled id [] node.id)

  open_nodes-insert-lt :
      (nodes : List FlowNode) (settled : BTreeMap (List String)) (node : FlowNode)
      → Memᴰ node nodes
      → BTreeMap.contains_key settled node.id ≡ false
      → open_nodes nodes (BTreeMap.insert settled node.id []) < open_nodes nodes settled
  unfolding open_nodes
  open_nodes-insert-lt [] settled node m h = elim m [ ]
  open_nodes-insert-lt (x ∷ nodes) settled node (Memᴰ.head e) h = ground (
    arith,
    open_nodes-insert-le nodes settled node.id,
    contains_key-insert settled node.id [] node.id,
    eq_refl node.id,
    e,
  )
  open_nodes-insert-lt (x ∷ nodes) settled node (Memᴰ.tail m) h = ground (
    arith,
    open_nodes-insert-lt nodes settled node m h,
    contains_key-insert settled node.id [] x.id,
  )

  -- A part of a pass settles nothing, or fewer nodes are open behind it.
  Moves : List FlowNode → Cascade → Cascade → Type 0
  Moves nodes c c' =
      ((c'.changed ≡ c.changed) × (open_nodes nodes c'.settled ≡ open_nodes nodes c.settled))
      ⊎ (open_nodes nodes c'.settled < open_nodes nodes c.settled)

  visit-Moves :
      (all : List FlowNode) (edges : List FlowEdge) (held : List String) (node : FlowNode)
      (c : Cascade)
      → Memᴰ node all
      → Moves all c (visit edges held node c)
  unfolding Moves visit decided decide settle_skip
  visit-Moves all edges held node c m = ground (arith, open_nodes-insert-lt all c.settled node m)

  Moves-trans :
      (nodes : List FlowNode) (a b c : Cascade)
      → Moves nodes a b
      → Moves nodes b c
      → Moves nodes a c
  unfolding Moves
  Moves-trans nodes a b c m n = ground arith

  pass-Moves :
      (graph_nodes : List FlowNode) (edges : List FlowEdge) (held : List String)
      (nodes : List FlowNode) (c : Cascade)
      → ((node : FlowNode) → Memᴰ node nodes → Memᴰ node graph_nodes)
      → Moves graph_nodes c (pass edges held nodes c)
  unfolding Moves pass
  pass-Moves graph_nodes edges held [] c sub = inl (refl, refl)
  pass-Moves graph_nodes edges held (node ∷ nodes) c sub =
      let next = visit edges held node c in
      Moves-trans graph_nodes c next (pass edges held nodes next)
        (visit-Moves graph_nodes edges held node c (sub node (Memᴰ.head refl)))
        (pass-Moves graph_nodes edges held nodes next (λ n m. sub n (Memᴰ.tail m)))

  pub cascade_still :
      (fuel : ℕ) (graph : FlowGraph) (held : List String) (c : Cascade)
      → c.changed ≡ false
      → cascade fuel graph held c ≡ c
  unfolding cascade
  cascade_still zero graph held c h = refl
  cascade_still (suc fuel) graph held c h = rw h

  cascade_ends :
      (fuel : ℕ) (graph : FlowGraph) (held : List String) (c : Cascade)
      → open_nodes graph.nodes c.settled < fuel
      → (cascade fuel graph held c).changed ≡ false
  unfolding cascade Moves
  cascade_ends zero graph held c h = absurd (omega arith)
  cascade_ends (suc fuel) graph held c h =
      let cleared : Cascade = record c { changed = false } in
      let next = pass graph.edges held graph.nodes cleared in
      elim (Bool-cases c.changed) [
        | inl on ↦
            rw on (elim (pass-Moves graph.nodes graph.edges held graph.nodes cleared (λ n m. m)) [
              | inl (still, _) ↦ rw (cascade_still fuel graph held next still) still
              | inr fewer ↦ cascade_ends fuel graph held next (omega arith)
            ])
        | inr off ↦ rw off
      ]

  -- The loop of `Frontier::compute` ends by its own test: after as many passes as the graph has nodes
  -- and one more, a pass has changed nothing.
  pub final_cascade_ends :
      (graph : FlowGraph) (state : RunState) → (final_cascade graph state).changed ≡ false
  unfolding final_cascade
  final_cascade_ends graph state =
      cascade_ends (suc (length graph.nodes)) graph (held_rows state) (start_cascade state)
        (omega (arith, open_nodes-le graph.nodes (start_cascade state).settled))
