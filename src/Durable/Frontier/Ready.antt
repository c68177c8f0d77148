-- ===== src/Durable/Frontier/Ready.antt =====
-- What the frontier reports as ready, and what its cascade skips.
use fancy_flow_rs.Prelude.{
  List, [], ◌∷◌, ◌++◌, String, Bool, true, false, not, Option, some, none, ◌==◌, ◌&&◌, ◌||◌, ◌≡◌,
  ◌⊎◌, inl, inr, refl, sym, ◌∙◌, arith, eq_iff, Option-cases, Bool-cases, ==-cases,
}
use fancy_flow_rs.Prelude.BTreeMap
use fancy_flow_rs.Prelude.BTreeMap.{
  BTreeMap, IsMap, contains_key-insert, get-insert, get_of_contains_key-false, contains_key_of_get,
  contains_key-get,
}
use fancy_flow_rs.Platform.{Platform}
use fancy_flow_rs.Schema.{FlowNode, FlowEdge, source_port}
use fancy_flow_rs.Registry.KindId.{contains}
use fancy_flow_rs.Engine.Walk.{incoming, is_nil}
use fancy_flow_rs.Durable.Frontier.{
  Cascade, Probe, blocked, reached, probe, settle_skip, is_note, decide, decided, visit, pass,
}

-- Every inbound edge has a settled source, and one is active unless there is none.
abbrev pub IsUnblocked : BTreeMap (List String) → List FlowEdge → Type 0
IsUnblocked settled inbound =
    (active : Bool) × (probe settled false inbound ≡ reached active)
    × ((is_nil inbound || active) ≡ true)

module _ (settled : BTreeMap (List String)) (active : Bool) (edge : FlowEdge)
    (edges : List FlowEdge) where
  pub probe-cons_some :
      (ports : List String)
      → BTreeMap.get settled edge.source ≡ some ports
      → probe settled active (edge ∷ edges)
        ≡ probe settled (active || contains ports (source_port edge)) edges
  unfolding probe
  probe-cons_some ports h = rw (h, probe)

  pub probe-cons_none :
      BTreeMap.get settled edge.source ≡ none → probe settled active (edge ∷ edges) ≡ blocked
  unfolding probe
  probe-cons_none h = rw (h, probe)

-- Settling one more id leaves a probe that was not blocked as it was.
probe-insert :
    (settled : BTreeMap (List String)) (id : String) (active : Bool) (edges : List FlowEdge)
    (b : Bool)
    → BTreeMap.contains_key settled id ≡ false
    → probe settled active edges ≡ reached b
    → probe (BTreeMap.insert settled id []) active edges ≡ reached b
probe-insert settled id active [] b h e = unfold probe in e
probe-insert settled id active (edge ∷ edges) b h e =
    elim (Option-cases (BTreeMap.get settled edge.source)) [
      | inl missing ↦ cc (probe-cons_none settled active edge edges missing)
      | inr (ports, there) ↦
          let kept : BTreeMap.get (BTreeMap.insert settled id []) edge.source ≡ some ports =
            ground (
              arith,
              get-insert settled id [] edge.source,
              contains_key_of_get settled edge.source there,
              eq_iff id edge.source,
            ) in
          probe-cons_some (BTreeMap.insert settled id []) active edge edges ports kept
          ∙ probe-insert settled id (active || contains ports (source_port edge)) edges b h
              (sym (probe-cons_some settled active edge edges ports there) ∙ e)
    ]

IsUnblocked-insert :
    (settled : BTreeMap (List String)) (id : String) (inbound : List FlowEdge)
    → BTreeMap.contains_key settled id ≡ false
    → IsUnblocked settled inbound
    → IsUnblocked (BTreeMap.insert settled id []) inbound
IsUnblocked-insert settled id inbound h (active, e, lit) =
    (active, probe-insert settled id false inbound active h e, lit)

contains-snoc :
    (l : List String) (a b : String) → contains (l ++ a ∷ []) b ≡ (contains l b || a == b)
unfolding contains
contains-snoc [] a b = ground arith
contains-snoc (x ∷ l) a b = ground (arith, contains-snoc l a b)

pub Probe-cases : (p : Probe) → (p ≡ blocked) ⊎ ((b : Bool) × (p ≡ reached b))
Probe-cases blocked = inl refl
Probe-cases (reached b) = inr (b, refl)

module _ ⦃P : Platform⦄ (edges : List FlowEdge) (held : List String)
    (first : BTreeMap (List String)) where
  -- What the loop keeps: the settled ids are those of the rows and the skipped ones, and a ready id
  -- was open and is unblocked.
  pub record Inv (c : Cascade) : Type 0 where
    pub origin :
        (k : String) (ports : List String)
        → BTreeMap.get c.settled k ≡ some ports
        → (BTreeMap.get first k ≡ some ports) ⊎ ((contains c.skipped k ≡ true) × (ports ≡ []))
    pub kept :
        (k : String) (ports : List String)
        → BTreeMap.get first k ≡ some ports
        → BTreeMap.get c.settled k ≡ some ports
    pub runs :
        (id : String)
        → contains c.ready id ≡ true
        → IsUnblocked c.settled (incoming edges id)
          × (contains held id ≡ false)
          × (BTreeMap.get first id ≡ none)

  settle_skip-Inv :
      (c : Cascade) (id : String)
      → BTreeMap.contains_key c.settled id ≡ false
      → Inv c
      → Inv (settle_skip id c)
  unfolding settle_skip
  settle_skip-Inv c id h inv = record {
    origin = λ k ports e. ground (
      arith,
      inv.origin k ports,
      get-insert c.settled id [] k,
      contains-snoc c.skipped id k,
      eq_iff id k,
    );
    kept = λ k ports e. ground (
      arith,
      inv.kept k ports e,
      get-insert c.settled id [] k,
      eq_iff id k,
      contains_key_of_get c.settled k (inv.kept k ports e),
    );
    runs = λ k r.
        let (unblocked, free, fresh) = inv.runs k r in
        (IsUnblocked-insert c.settled id (incoming edges k) h unblocked, free, fresh);
  }

  push_ready-Inv :
      (c : Cascade) (id : String)
      → IsUnblocked c.settled (incoming edges id)
      → contains held id ≡ false
      → BTreeMap.contains_key c.settled id ≡ false
      → Inv c
      → Inv (record c { ready = c.ready ++ id ∷ [] })
  push_ready-Inv c id unblocked free h inv = record {
    origin = inv.origin;
    kept = inv.kept;
    runs = λ k r. elim (==-cases id k) [
      | inl (same, _) ↦ rw (← same) (unblocked, free, fresh (BTreeMap.get first id) refl)
      | inr (_, other) ↦ inv.runs k (ground (arith, contains-snoc c.ready id k))
    ];
  }
    where
      fresh : (o : Option (List String)) → BTreeMap.get first id ≡ o → BTreeMap.get first id ≡ none
      fresh none e = e
      fresh (some ports) e = cc (contains_key_of_get c.settled id (inv.kept id ports e))

  visit-Inv : (node : FlowNode) (c : Cascade) → Inv c → Inv (visit edges held node c)
  unfolding visit decided decide
  visit-Inv node c inv = elim (Bool-cases (decided held c node.id)) [
    | inl old ↦ rw (old, visit) inv
    | inr new ↦
        let open_id : BTreeMap.contains_key c.settled node.id ≡ false = ground arith in
        let free : contains held node.id ≡ false = ground arith in
        elim (Probe-cases (probe c.settled false (incoming edges node.id))) [
          | inl stuck ↦ rw (new, stuck, visit) inv
          | inr (active, e) ↦
              rw (new, e, visit)
                (elim (Bool-cases (not (is_nil (incoming edges node.id)) && not active)) [
                  | inl dark ↦ rw dark (settle_skip-Inv c node.id open_id inv)
                  | inr lit ↦ rw lit (elim (Bool-cases (is_note node)) [
                    | inl note ↦ rw note (settle_skip-Inv c node.id open_id inv)
                    | inr step ↦
                        rw step
                          (push_ready-Inv c node.id (active, e, ground arith) free open_id inv)
                  ])
                ])
        ]
  ]

  pub pass-Inv : (nodes : List FlowNode) (c : Cascade) → Inv c → Inv (pass edges held nodes c)
  unfolding pass
  pass-Inv [] c inv = inv
  pass-Inv (node ∷ nodes) c inv = pass-Inv nodes (visit edges held node c) (visit-Inv node c inv)
