-- ===== src/Durable/Frontier/Runnable.antt =====
-- What a ready node of the frontier may rely on.
use fancy_flow_rs.Prelude.{
  suc, List, [], ◌∷◌, String, Bool, true, false, Option, some, none, ◌||◌, ◌≡◌, ◌≢◌, ◌⊎◌, inl, inr,
  refl, sym, ◌∙◌, arith, length,
}
use mathlib.Core.List.{Memᴰ}
use fancy_flow_rs.Prelude.BTreeMap
use fancy_flow_rs.Prelude.BTreeMap.{BTreeMap, IsMap, get_of_contains_key-false}
use fancy_flow_rs.Platform.{Platform}
use fancy_flow_rs.Schema.{FlowEdge, FlowGraph, source_port}
use fancy_flow_rs.Registry.KindId.{contains}
use fancy_flow_rs.Engine.Walk.{incoming, is_nil}
use fancy_flow_rs.Engine.Walk.Incoming.{mem-incoming, mem_of_mem-incoming}
use fancy_flow_rs.Durable.State.{NodeState, RunState, completed, is_settled, is_held}
use fancy_flow_rs.Durable.Frontier.{
  Cascade, reached, probe, start_cascade, held_rows, final_cascade, settled_rows, compute,
}
use fancy_flow_rs.Durable.Frontier.Ready.{Inv}
use fancy_flow_rs.Durable.Frontier.Probing.{
  Lit, lit_ports, row_held, probe_sources, probe_active, cascade-Inv, start-Inv, get-settled_rows,
  contains-held_rows,
}

module _ ⦃P : Platform⦄ where
  -- The source of an edge has a settled row, or the cascade has just skipped it.
  abbrev pub IsDone : RunState → List String → String → Type 0
  IsDone state gone source =
      ((row : NodeState) × (BTreeMap.get state source ≡ some row) × (is_settled row.status ≡ true))
      ⊎ (contains gone source ≡ true)

  -- An edge whose source completed and published the port that the edge reads.
  pub record IsActive (state : RunState) (e : FlowEdge) : Type 0 where
    pub row : NodeState
    pub stored : BTreeMap.get state e.source ≡ some row
    pub completed_row : row.status ≡ completed
    pub published : contains row.ports (source_port e) ≡ true

  -- No row, every source decided, and an active inbound edge unless there is none.
  pub record IsRunnable (graph : FlowGraph) (state : RunState) (gone : List String) (id : String)
      : Type 0 where
    pub fresh : BTreeMap.get state id ≡ none
    pub sources : (e : FlowEdge) → Memᴰ e graph.edges → e.target ≡ id → IsDone state gone e.source
    pub active :
        ((e : FlowEdge) → Memᴰ e graph.edges → e.target ≢ id)
        ⊎ ((e : FlowEdge) × Memᴰ e graph.edges × (e.target ≡ id) × IsActive state e)

  no_row : (o : Option NodeState) → lit_ports o ≡ none → row_held o ≡ false → o ≡ none
  unfolding is_held
  no_row none p q = refl
  no_row (some row) p q = ground arith

  settled_of_lit :
      (o : Option NodeState) (ports : List String)
      → lit_ports o ≡ some ports
      → (row : NodeState) × (o ≡ some row) × (is_settled row.status ≡ true)
  unfolding is_settled
  settled_of_lit none ports h = cc
  settled_of_lit (some row) ports h = (row, refl, ground arith)

  active_of_lit :
      (o : Option NodeState) (ports : List String) (port : String)
      → lit_ports o ≡ some ports
      → contains ports port ≡ true
      → (row : NodeState) × (o ≡ some row)
        × (row.status ≡ completed)
        × (contains row.ports port ≡ true)
  unfolding contains
  active_of_lit none ports port h k = cc
  active_of_lit (some row) ports port h k = (row, refl, ground arith, ground arith)

  module _ (graph : FlowGraph) (state : RunState) (id : String) (is_map : IsMap state) (c : Cascade)
      (inv : Inv graph.edges (held_rows state) (settled_rows state) c)
      (is_ready : contains c.ready id ≡ true) where
    source-IsDone :
        (k : String) (ports : List String)
        → BTreeMap.get c.settled k ≡ some ports
        → IsDone state c.skipped k
    source-IsDone k ports h = elim (inv.origin k ports h) [
      | inl row ↦ inl (
          settled_of_lit (BTreeMap.get state k) ports (sym (get-settled_rows state k is_map) ∙ row))
      | inr later ↦ inr later.0
    ]

    Lit-edge :
        Lit c.settled (incoming graph.edges id)
        → (e : FlowEdge) × Memᴰ e graph.edges × (e.target ≡ id) × IsActive state e
    unfolding contains
    Lit-edge (e, m, (ports, there, lit)) =
        let (m', t) = mem_of_mem-incoming e graph.edges id m in
        elim (inv.origin e.source ports there) [
          | inr (_, dark) ↦ ground arith
          | inl stored ↦
              let (row, found, done, port) =
                active_of_lit (BTreeMap.get state e.source) ports (source_port e)
                  (sym (get-settled_rows state e.source is_map) ∙ stored) lit in
              (
                e,
                m',
                t,
                record { row = row; stored = found; completed_row = done; published = port },
              )
        ]

    has-IsActive :
        (active : Bool)
        → probe c.settled false (incoming graph.edges id) ≡ reached active
        → (is_nil (incoming graph.edges id) || active) ≡ true
        → ((e : FlowEdge) → Memᴰ e graph.edges → e.target ≢ id)
          ⊎ ((e : FlowEdge) × Memᴰ e graph.edges × (e.target ≡ id) × IsActive state e)
    has-IsActive false found lit = inl λ e m t.
        no_member (incoming graph.edges id) (ground arith) (mem-incoming e graph.edges id m t)
      where
        no_member : {e : FlowEdge} (l : List FlowEdge) → is_nil l ≡ true → Memᴰ e l → ⊥
        no_member [] h m = elim m [ ]
        no_member (x ∷ l) h m = cc
    has-IsActive true found lit =
        elim (probe_active c.settled false (incoming graph.edges id) found) [
          | inl off ↦ cc
          | inr edge ↦ inr (Lit-edge edge)
        ]

    ready-IsRunnable : IsRunnable graph state c.skipped id
    ready-IsRunnable =
        let ((active, found, lit), free, absent) = inv.runs id is_ready in
        record {
          fresh =
              no_row (BTreeMap.get state id) (sym (get-settled_rows state id is_map) ∙ absent)
                (sym (contains-held_rows state id is_map) ∙ free);
          sources = λ e m t.
              let (ports, there) =
                probe_sources c.settled false active (incoming graph.edges id) e found
                  (mem-incoming e graph.edges id m t) in
              source-IsDone e.source ports there;
          active = has-IsActive active found lit;
        }

  -- A node that the frontier reports as ready has no row yet; the source of each edge into it has
  -- settled, by its row or by this cascade; and it has no inbound edge, or one whose source
  -- completed and published the port that the edge reads.
  pub compute-IsRunnable :
      (graph : FlowGraph) (state : RunState) (id : String)
      → IsMap state
      → contains (compute graph state).ready id ≡ true
      → IsRunnable graph state (compute graph state).skipped id
  unfolding compute final_cascade
  compute-IsRunnable graph state id is_map is_ready =
      ready-IsRunnable graph state id is_map (final_cascade graph state)
        (cascade-Inv (suc (length graph.nodes)) graph (held_rows state) (settled_rows state)
          (start_cascade state) (start-Inv graph state))
        is_ready
