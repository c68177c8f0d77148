-- ===== src/Nodes/Lane/Adjacency.antt =====
-- The targets that the adjacency table lists for a node.
use mathlib.Core.List.{Memᴰ}
use mathlib.Core.List.Memᴰ
use fancy_flow_rs.Prelude.{
  List, [], ◌∷◌, ◌++◌, String, true, if◌then◌else◌, ◌==◌, ◌≡◌, refl, ap, sym, subst, arith, eq_refl,
  append_assoc, append-nil, inl, inr, ==-cases, Bool-cases,
}
use fancy_flow_rs.Prelude.BTreeMap
use fancy_flow_rs.Prelude.BTreeMap.{BTreeMap, get-insert}
use fancy_flow_rs.Schema.{FlowEdge}
use fancy_flow_rs.Registry.KindId.{contains}
use fancy_flow_rs.Nodes.Lane.{filter_by, targets, listed, add_edge, adjacency_of}

-- The targets of the edges out of a node.
abbrev pub outs : List FlowEdge → String → List String
outs edges id = targets (filter_by (λ edge. edge.source == id) edges)

listed-add_edge :
    (adjacency : BTreeMap (List String)) (edge : FlowEdge) (id : String)
    → listed (BTreeMap.get (add_edge adjacency edge) id)
      ≡ listed (BTreeMap.get adjacency id) ++ (if edge.source == id then edge.target ∷ [] else [])
unfolding add_edge
listed-add_edge adjacency edge id = elim (==-cases edge.source id) [
  | inl (same, h) ↦
      rw
        (
          get-insert adjacency edge.source
              (listed (BTreeMap.get adjacency edge.source) ++ edge.target ∷ []) id,
          h,
        )
        (ap (λ s. listed (BTreeMap.get adjacency s) ++ edge.target ∷ []) same)
  | inr (other, h) ↦
      rw
        (
          get-insert adjacency edge.source
              (listed (BTreeMap.get adjacency edge.source) ++ edge.target ∷ []) id,
          h,
        )
        (sym (append-nil _))
]

listed-adjacency_of :
    (adjacency : BTreeMap (List String)) (edges : List FlowEdge) (id : String)
    → listed (BTreeMap.get (adjacency_of adjacency edges) id)
      ≡ listed (BTreeMap.get adjacency id) ++ outs edges id
unfolding adjacency_of
listed-adjacency_of adjacency [] id = sym (append-nil _)
listed-adjacency_of adjacency (edge ∷ edges) id =
    rw (listed-adjacency_of (add_edge adjacency edge) edges id, listed-add_edge adjacency edge id)
      (elim (Bool-cases (edge.source == id)) [
        | inl h ↦
            rw h
              (append_assoc (listed (BTreeMap.get adjacency id)) (edge.target ∷ []) (outs edges id))
        | inr h ↦ rw (h, append-nil (listed (BTreeMap.get adjacency id))) refl
      ])

-- The table lists the targets of the edges out of the node, in their order.
pub listed-adjacency :
    (edges : List FlowEdge) (id : String)
    → listed (BTreeMap.get (adjacency_of [] edges) id) ≡ outs edges id
unfolding BTreeMap.get
listed-adjacency edges id = listed-adjacency_of [] edges id

pub contains-outs :
    (edges : List FlowEdge) (e : FlowEdge)
    → Memᴰ e edges
    → contains (outs edges e.source) e.target ≡ true
unfolding contains
contains-outs [] e m = absurd (Memᴰ.not-nil m)
contains-outs (edge ∷ edges) e (Memᴰ.head same) =
    subst (λ x. contains (outs (x ∷ edges) e.source) e.target ≡ true) same
      (rw (eq_refl e.source, eq_refl e.target) refl)
contains-outs (edge ∷ edges) e (Memᴰ.tail m) = elim (Bool-cases (edge.source == e.source)) [
  | inl h ↦ rw h (ground (arith, contains-outs edges e m))
  | inr h ↦ rw h (contains-outs edges e m)
]

-- There is an edge from the first node to the second.
abbrev pub Wired : List FlowEdge → String → String → Type 0
Wired edges id v = (e : FlowEdge) × Memᴰ e edges × (e.source ≡ id) × (e.target ≡ v)

later :
    (edge : FlowEdge) {edges : List FlowEdge} {id v : String}
    → Wired edges id v
    → Wired (edge ∷ edges) id v
later edge (e, m, from, to) = (e, Memᴰ.tail m, from, to)

pub edge_of_outs :
    (edges : List FlowEdge) (id v : String) → contains (outs edges id) v ≡ true → Wired edges id v
unfolding contains
edge_of_outs [] id v h = absurd (cc)
edge_of_outs (edge ∷ edges) id v h = elim (==-cases edge.source id) [
  | inr (other, test) ↦ later edge (edge_of_outs edges id v (rw test at h))
  | inl (same, test) ↦ elim (==-cases edge.target v) [
    | inl (hit, _) ↦ (edge, Memᴰ.head refl, same, hit)
    | inr (miss, no_hit) ↦ later edge (edge_of_outs edges id v (ground arith))
  ]
]

pub outs_of_Wired :
    (edges : List FlowEdge) (id v : String) → Wired edges id v → contains (outs edges id) v ≡ true
outs_of_Wired edges id v (e, m, from, to) =
    subst (λ i. contains (outs edges i) v ≡ true) from
      (subst (λ t. contains (outs edges e.source) t ≡ true) to (contains-outs edges e m))
