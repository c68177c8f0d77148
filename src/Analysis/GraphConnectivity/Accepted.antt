-- ===== src/Analysis/GraphConnectivity/Accepted.antt =====
-- What a graph without issues has.
use fancy_flow_rs.Prelude.{
  List, [], ◌∷◌, ◌++◌, map, String, true, false, ◌&&◌, ◌≡◌, ◌≢◌, ◌⊎◌, inl, inr, refl, subst, arith,
  nat_beq, Bool-cases, ==-cases, length,
}
use mathlib.Core.List.{Memᴰ}
use fancy_flow_rs.Prelude.BTreeMap.{BTreeMap}
use fancy_flow_rs.Platform.{Platform}
use fancy_flow_rs.Schema.{FlowNode, FlowEdge}
use fancy_flow_rs.Registry.KindId.{contains}
use fancy_flow_rs.Registry.Catalogue.{NodeKindRegistry}
use fancy_flow_rs.Engine.Undelivered.{index_nodes}
use fancy_flow_rs.Engine.Walk.{is_nil}
use fancy_flow_rs.Analysis.GraphConnectivity.{
  may_float, unconnected, terminal, targets, sources, floating_issues, terminal_issues,
  check_graph_connectivity,
}

is_nil-append : {A : Type 0} → (xs ys : List A) → is_nil (xs ++ ys) ≡ (is_nil xs && is_nil ys)
is_nil-append [] ys = refl
is_nil-append (x ∷ xs) ys = refl

module _ ⦃P : Platform⦄ where
  contains-edge :
      (f : FlowEdge → String) (edges : List FlowEdge) (id : String)
      → contains (map f edges) id ≡ true
      → (e : FlowEdge) × Memᴰ e edges × (f e ≡ id)
  unfolding contains
  contains-edge f [] id h = cc
  contains-edge f (edge ∷ edges) id h = elim (==-cases (f edge) id) [
    | inl (same, e) ↦ (edge, Memᴰ.head refl, same)
    | inr (other, e) ↦
        let (found, m, same) = contains-edge f edges id (ground (arith, h, e)) in
        (found, Memᴰ.tail m, same)
  ]

  connected-edge :
      (edges : List FlowEdge) (node : FlowNode)
      → unconnected edges node ≡ false
      → (e : FlowEdge) × Memᴰ e edges × ((e.target ≡ node.id) ⊎ (e.source ≡ node.id))
  unfolding targets sources unconnected
  connected-edge edges node h = elim (Bool-cases (contains (targets edges) node.id)) [
    | inl read ↦
        let (e, m, same) = contains-edge (λ e. e.target) edges node.id read in (e, m, inl same)
    | inr unread ↦
        let (e, m, same) =
          contains-edge (λ e. e.source) edges node.id (ground (arith, h, unread)) in
        (e, m, inr same)
  ]

  floating_issues-nil :
      (edges : List FlowEdge) (registry : NodeKindRegistry) (nodes : List FlowNode)
      (node : FlowNode)
      → is_nil (floating_issues false edges registry nodes) ≡ true
      → Memᴰ node nodes
      → may_float node registry ≡ false
      → unconnected edges node ≡ false
  unfolding floating_issues
  floating_issues-nil edges registry [] node h m f = elim m [ ]
  floating_issues-nil edges registry (first ∷ nodes) node h (Memᴰ.head e) f =
      let wired : may_float first registry ≡ false = rw (← e) f in
      let ok : unconnected edges first ≡ false = ground (arith, h, wired) in rw e ok
  floating_issues-nil edges registry (first ∷ nodes) node h (Memᴰ.tail m) f =
      floating_issues-nil edges registry nodes node (ground (arith, h)) m f

  terminal_issues-nil :
      (by_id : BTreeMap FlowNode) (registry : NodeKindRegistry) (edges : List FlowEdge)
      (edge : FlowEdge)
      → is_nil (terminal_issues by_id registry edges) ≡ true
      → Memᴰ edge edges
      → terminal by_id registry edge ≡ false
  unfolding terminal_issues
  terminal_issues-nil by_id registry [] edge h m = elim m [ ]
  terminal_issues-nil by_id registry (first ∷ edges) edge h (Memᴰ.head e) =
      let ok : terminal by_id registry first ≡ false = ground (arith, h) in rw e ok
  terminal_issues-nil by_id registry (first ∷ edges) edge h (Memᴰ.tail m) =
      terminal_issues-nil by_id registry edges edge (ground (arith, h)) m

  -- In a graph of several nodes for which the check reports nothing, every node that may not float is
  -- an end of some edge.
  pub check_graph_connectivity-wired :
      (nodes : List FlowNode) (edges : List FlowEdge) (registry : NodeKindRegistry)
      (node : FlowNode)
      → is_nil (check_graph_connectivity nodes edges registry) ≡ true
      → length nodes ≢ 1
      → Memᴰ node nodes
      → may_float node registry ≡ false
      → (e : FlowEdge) × Memᴰ e edges × ((e.target ≡ node.id) ⊎ (e.source ≡ node.id))
  unfolding check_graph_connectivity
  check_graph_connectivity-wired nodes edges registry node h several m f =
      let many : nat_beq (length nodes) 1 ≡ false = ground (arith, several) in
      let none_floats : is_nil (floating_issues false edges registry nodes) ≡ true =
        subst (λ b. is_nil (floating_issues b edges registry nodes) ≡ true) many
          (ground (
            arith,
            h,
            is_nil-append (floating_issues (nat_beq (length nodes) 1) edges registry nodes)
                (terminal_issues (index_nodes [] nodes) registry edges),
          )) in
      connected-edge edges node (floating_issues-nil edges registry nodes node none_floats m f)
