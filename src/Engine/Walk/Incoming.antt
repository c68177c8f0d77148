-- ===== src/Engine/Walk/Incoming.antt =====
-- The inbound edges of a node are the edges of the graph that name it as their target.
use fancy_flow_rs.Prelude.{List, [], ◌∷◌, String, ◌≡◌, ◌≢◌, ◌⊎◌, inl, inr, sym, subst, ==-cases}
use mathlib.Core.List.{Memᴰ}
use fancy_flow_rs.Schema.{FlowEdge}
use fancy_flow_rs.Engine.Walk.{incoming}

incoming-cons :
    (edge : FlowEdge) (edges : List FlowEdge) (id : String)
    → ((edge.target ≡ id) × (incoming (edge ∷ edges) id ≡ edge ∷ incoming edges id))
      ⊎ ((edge.target ≢ id) × (incoming (edge ∷ edges) id ≡ incoming edges id))
unfolding incoming
incoming-cons edge edges id = elim (==-cases edge.target id) [
  | inl (same, test) ↦ inl (same, rw test)
  | inr (other, test) ↦ inr (other, rw test)
]

mem-hit :
    (e edge : FlowEdge) (edges l : List FlowEdge) (id : String)
    → edge.target ≡ id
    → Memᴰ e (edge ∷ l)
    → (Memᴰ e l → Memᴰ e edges × (e.target ≡ id))
    → Memᴰ e (edge ∷ edges) × (e.target ≡ id)
mem-hit e edge edges l id same (Memᴰ.head h) k = (Memᴰ.head h, rw h same)
mem-hit e edge edges l id same (Memᴰ.tail m) k = let (m', t) = k m in (Memᴰ.tail m', t)

-- An inbound edge is an edge of the graph, and its target is the node.
pub mem_of_mem-incoming :
    (e : FlowEdge) (edges : List FlowEdge) (id : String)
    → Memᴰ e (incoming edges id)
    → Memᴰ e edges × (e.target ≡ id)
mem_of_mem-incoming e [] id m = unfold incoming in elim m [ ]
mem_of_mem-incoming e (edge ∷ edges) id m = elim (incoming-cons edge edges id) [
  | inl (same, eq) ↦
      mem-hit e edge edges (incoming edges id) id same (subst (Memᴰ e) eq m)
        (mem_of_mem-incoming e edges id)
  | inr (other, eq) ↦
      let (m', t) = mem_of_mem-incoming e edges id (subst (Memᴰ e) eq m) in (Memᴰ.tail m', t)
]

-- An edge of the graph into the node is an inbound edge.
pub mem-incoming :
    (e : FlowEdge) (edges : List FlowEdge) (id : String)
    → Memᴰ e edges
    → e.target ≡ id
    → Memᴰ e (incoming edges id)
mem-incoming e [] id m t = elim m [ ]
mem-incoming e (edge ∷ edges) id (Memᴰ.head h) t = elim (incoming-cons edge edges id) [
  | inl (same, eq) ↦ subst (Memᴰ e) (sym eq) (Memᴰ.head h)
  | inr (other, eq) ↦ absurd (other (rw (← h) t))
]
mem-incoming e (edge ∷ edges) id (Memᴰ.tail m) t = elim (incoming-cons edge edges id) [
  | inl (same, eq) ↦ subst (Memᴰ e) (sym eq) (Memᴰ.tail (mem-incoming e edges id m t))
  | inr (other, eq) ↦ subst (Memᴰ e) (sym eq) (mem-incoming e edges id m t)
]
