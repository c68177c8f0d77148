-- ===== src/Durable/Frontier/Probing.antt =====
-- What the loop over inbound edges finds, and what the cascade keeps of the rows.
use fancy_flow_rs.Prelude.{
  ℕ, zero, suc, List, [], ◌∷◌, String, Bool, true, false, Option, some, none, ◌||◌, ◌≡◌, ◌⊎◌, inl,
  inr, refl, sym, subst, ◌∙◌, arith, eq_iff, Option-cases, Bool-cases,
}
use mathlib.Core.List.{Memᴰ}
use fancy_flow_rs.Prelude.BTreeMap
use fancy_flow_rs.Prelude.BTreeMap.{BTreeMap, IsMap, get_of_contains_key-false}
use fancy_flow_rs.Platform.{Platform}
use fancy_flow_rs.Schema.{FlowEdge, FlowGraph, source_port}
use fancy_flow_rs.Registry.KindId.{contains}
use fancy_flow_rs.Durable.State.{
  NodeState, RunState, claimed, completed, skipped, failed, paused, is_held,
}
use fancy_flow_rs.Durable.Frontier.{
  Cascade, reached, probe, cascade, start_cascade, held_rows, settled_rows,
}
use fancy_flow_rs.Durable.Frontier.Ends.{cascade_still}
use fancy_flow_rs.Durable.Frontier.Ready.{Inv, pass-Inv, probe-cons_some, probe-cons_none}

-- Behind a probe that was not blocked every source is settled.
pub probe_sources :
    (settled : BTreeMap (List String)) (active b : Bool) (edges : List FlowEdge) (e : FlowEdge)
    → probe settled active edges ≡ reached b
    → Memᴰ e edges
    → (ports : List String) × (BTreeMap.get settled e.source ≡ some ports)
probe_sources settled active b [] e h m = elim m [ ]
probe_sources settled active b (edge ∷ edges) e h m =
    elim (Option-cases (BTreeMap.get settled edge.source)) [
      | inl missing ↦ cc (probe-cons_none settled active edge edges missing)
      | inr (ports, there) ↦ first_or_later m ports there λ later.
          probe_sources settled (active || contains ports (source_port edge)) b edges e
            (sym (probe-cons_some settled active edge edges ports there) ∙ h) later
    ]
  where
    first_or_later :
        Memᴰ e (edge ∷ edges)
        → (ports : List String) → BTreeMap.get settled edge.source ≡ some ports
        → (Memᴰ e edges → (ports : List String) × (BTreeMap.get settled e.source ≡ some ports))
        → (ports : List String) × (BTreeMap.get settled e.source ≡ some ports)
    first_or_later (Memᴰ.head same) ports there k = (ports, rw same there)
    first_or_later (Memᴰ.tail later) ports there k = k later

-- An edge whose source lit its port.
abbrev pub Lit : BTreeMap (List String) → List FlowEdge → Type 0
Lit settled edges =
    (e : FlowEdge) × Memᴰ e edges
    × ((ports : List String) × (BTreeMap.get settled e.source ≡ some ports)
        × (contains ports (source_port e) ≡ true))

-- A probe that ends active began active, or met an edge that is lit.
pub probe_active :
    (settled : BTreeMap (List String)) (active : Bool) (edges : List FlowEdge)
    → probe settled active edges ≡ reached true
    → (active ≡ true) ⊎ Lit settled edges
probe_active settled active [] h = inl (unfold probe in ground arith)
probe_active settled active (edge ∷ edges) h =
    elim (Option-cases (BTreeMap.get settled edge.source)) [
      | inl missing ↦ cc (probe-cons_none settled active edge edges missing)
      | inr (ports, there) ↦
          elim (probe_active settled (active || contains ports (source_port edge)) edges
            (sym (probe-cons_some settled active edge edges ports there) ∙ h)) [
              | inr (e, m, lit) ↦ inr (e, Memᴰ.tail m, lit)
              | inl on ↦ elim (Bool-cases active) [
                | inl was ↦ inl was
                | inr off ↦ inr (edge, Memᴰ.head refl, (ports, there, ground arith))
              ]
            ]
    ]

module _ ⦃P : Platform⦄ where
  pub cascade-Inv :
      (fuel : ℕ) (graph : FlowGraph) (held : List String) (first : BTreeMap (List String))
      (c : Cascade)
      → Inv graph.edges held first c
      → Inv graph.edges held first (cascade fuel graph held c)
  unfolding cascade
  cascade-Inv zero graph held first c inv = inv
  cascade-Inv (suc fuel) graph held first c inv = elim (Bool-cases c.changed) [
    | inl on ↦ rw on (
        cascade-Inv fuel graph held first _ (
          pass-Inv graph.edges held first graph.nodes (record c { changed = false })
            (record { origin = inv.origin; kept = inv.kept; runs = inv.runs })))
    | inr off ↦
        subst (Inv graph.edges held first) (sym (cascade_still (suc fuel) graph held c off)) inv
  ]

  pub start-Inv :
      (graph : FlowGraph) (state : RunState)
      → Inv graph.edges (held_rows state) (settled_rows state) (start_cascade state)
  unfolding start_cascade contains
  start-Inv graph state = record {
    origin = λ k ports e. inl e;
    kept = λ k ports e. e;
    runs = λ id r. cc;
  }

  -- The ports that a row lit, if it is settled.
  abbrev pub lit_ports : Option NodeState → Option (List String)
  lit_ports none = none
  lit_ports (some row) = elim row.status [
    | completed ↦ some row.ports
    | skipped ↦ some []
    | failed ↦ some []
    | claimed ↦ none
    | paused ↦ none
  ]

  pub get-settled_rows :
      (state : RunState) (k : String)
      → IsMap state
      → BTreeMap.get (settled_rows state) k ≡ lit_ports (BTreeMap.get state k)
  unfolding settled_rows BTreeMap.get
  get-settled_rows [] k h = refl
  get-settled_rows ((j, row) ∷ state) k h =
      ground
        (arith, get-settled_rows state k h.1, eq_iff j k, get_of_contains_key-false state j h.0)

  abbrev pub row_held : Option NodeState → Bool
  row_held (some row) = is_held row.status
  row_held none = false

  pub contains-held_rows :
      (state : RunState) (k : String)
      → IsMap state
      → contains (held_rows state) k ≡ row_held (BTreeMap.get state k)
  unfolding held_rows BTreeMap.get contains
  contains-held_rows [] k h = refl
  contains-held_rows ((j, row) ∷ state) k h =
      ground
        (arith, contains-held_rows state k h.1, eq_iff j k, get_of_contains_key-false state j h.0)
