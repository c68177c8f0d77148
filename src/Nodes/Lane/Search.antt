-- ===== src/Nodes/Lane/Search.antt =====
-- The search ends, and finds what can be reached.
use fancy_flow_rs.Prelude.{
  ℕ, zero, suc, ◌+◌, ◌≤◌, List, [], ◌∷◌, String, true, false, some, if◌then◌else◌, ◌==◌, ◌||◌, ◌≡◌,
  ◌↔◌, refl, sym, subst, arith, eq_iff, eq_refl, length, inl, inr, Bool-cases, ==-cases,
  ne→==-false,
}
use fancy_flow_rs.Schema.{FlowEdge}
use fancy_flow_rs.Registry.KindId.{contains}
use fancy_flow_rs.Nodes.Lane.{adjacency_of, push_all, search, reachable}
use fancy_flow_rs.Nodes.Lane.Adjacency.{outs, Wired, listed-adjacency, outs_of_Wired, edge_of_outs}

-- A walk along edges from one of the starts.
pub data Reach (edges : List FlowEdge) (starts : List String) : String → Type 0 where
  start : {id : String} → contains starts id ≡ true → Reach edges starts id
  follow :
      {id next : String} → Reach edges starts id → Wired edges id next → Reach edges starts next

length-push_all :
    (queue ids : List String) → length (push_all queue ids) ≡ length queue + length ids
unfolding push_all
length-push_all queue [] = omega arith
length-push_all queue (id ∷ ids) = omega (arith, length-push_all (id ∷ queue) ids)

contains-push_all :
    (queue ids : List String) (id : String)
    → contains (push_all queue ids) id ≡ (contains queue id || contains ids id)
unfolding push_all contains
contains-push_all queue [] id = ground arith
contains-push_all queue (x ∷ ids) id = ground (arith, contains-push_all (x ∷ queue) ids id)

contains-nil : (id : String) → contains [] id ≡ false
unfolding contains
contains-nil id = refl

contains-cons :
    (x : String) (l : List String) (id : String) → contains (x ∷ l) id ≡ (x == id || contains l id)
unfolding contains
contains-cons x l id = refl

-- The edges whose source has not been seen.
unseen : List FlowEdge → List String → ℕ
unseen [] seen = 0
unseen (edge ∷ edges) seen = (if contains seen edge.source then 0 else 1) + unseen edges seen

unseen-le : (edges : List FlowEdge) → unseen edges [] ≤ length edges
unfolding unseen contains
unseen-le [] = omega arith
unseen-le (edge ∷ edges) = omega (arith, unseen-le edges)

-- Seeing a node moves the edges out of it from the unseen ones to the queue.
unseen-see :
    (edges : List FlowEdge) (seen : List String) (id : String)
    → contains seen id ≡ false
    → unseen edges (id ∷ seen) + length (outs edges id) ≡ unseen edges seen
unfolding unseen
unseen-see [] seen id h = omega arith
unseen-see (edge ∷ edges) seen id h = elim (==-cases edge.source id) [
  | inl (same, test) ↦
      let hit : (id == edge.source) ≡ true = (eq_iff id edge.source).1 (sym same) in
      let new : contains seen edge.source ≡ false =
        subst (λ s. contains seen s ≡ false) (sym same) h in
      rw (contains-cons id seen edge.source, hit, new, test)
        (omega (arith, unseen-see edges seen id h))
  | inr (other, test) ↦
      let miss : (id == edge.source) ≡ false = ne→==-false id edge.source (λ e. other (sym e)) in
      rw (contains-cons id seen edge.source, miss, test) (omega (arith, unseen-see edges seen id h))
]

module _ (edges : List FlowEdge) where
  search_ends :
      (fuel : ℕ) (seen queue : List String)
      → length queue + unseen edges seen ≤ fuel
      → (found : List String) × (search fuel (adjacency_of [] edges) seen queue ≡ some found)
  unfolding search
  search_ends fuel seen [] h = (seen, refl)
  search_ends zero seen (id ∷ queue) h = absurd (omega arith)
  search_ends (suc fuel) seen (id ∷ queue) h = elim (Bool-cases (contains seen id)) [
    | inl old ↦ rw (old, search) (search_ends fuel seen queue (omega arith))
    | inr new ↦
        rw (new, listed-adjacency edges id, search)
          (search_ends fuel (id ∷ seen) (push_all queue (outs edges id))
            (omega (arith, length-push_all queue (outs edges id), unseen-see edges seen id new)))
  ]

  -- The nodes that an edge leads to from a seen one are seen or queued.
  abbrev Closed : List String → List String → Type 0
  Closed seen queue =
      (u v : String)
      → contains seen u ≡ true
      → Wired edges u v
      → (contains seen v || contains queue v) ≡ true

  module _ (starts : List String) where
    abbrev Sound : List String → Type 0
    Sound l = (id : String) → contains l id ≡ true → Reach edges starts id

    -- What the search returns, from a sound state in which the seen nodes are closed.
    abbrev Finds : List String → List String → List String → Type 0
    Finds seen queue found =
        Sound found
        × Closed found []
        × ((id : String)
            → (contains seen id || contains queue id) ≡ true
            → contains found id ≡ true)

    module _ (seen queue : List String) (id : String) where
      see : Sound seen → Sound (id ∷ queue) → Sound (id ∷ seen)
      see sound waiting j h = elim (==-cases id j) [
        | inl (same, test) ↦ waiting j (ground (arith, contains-cons id queue j))
        | inr (other, test) ↦ sound j (ground (arith, contains-cons id seen j))
      ]

      enqueue : Sound (id ∷ queue) → Sound (push_all queue (outs edges id))
      enqueue waiting j h = elim (Bool-cases (contains queue j)) [
        | inl queued ↦ waiting j (ground (arith, contains-cons id queue j))
        | inr fresh ↦
            follow (waiting id (ground (arith, contains-cons id queue id, eq_refl id)))
              (edge_of_outs edges id j (ground (arith, contains-push_all queue (outs edges id) j)))
      ]

      Closed-see : Closed seen (id ∷ queue) → Closed (id ∷ seen) (push_all queue (outs edges id))
      Closed-see closed u v su w = elim (==-cases id u) [
        | inl (same, test) ↦
            let out : contains (outs edges id) v ≡ true =
              outs_of_Wired edges id v (subst (λ i. Wired edges i v) (sym same) w) in
            ground (arith, contains-push_all queue (outs edges id) v)
        | inr (other, test) ↦
            let old : contains seen u ≡ true = ground (arith, contains-cons id seen u) in
            ground (
              arith,
              closed u v old w,
              contains-cons id queue v,
              contains-cons id seen v,
              contains-push_all queue (outs edges id) v,
            )
      ]

    search-Finds :
        (fuel : ℕ) (seen queue : List String) {found : List String}
        → search fuel (adjacency_of [] edges) seen queue ≡ some found
        → Sound seen
        → Sound queue
        → Closed seen queue
        → Finds seen queue found
    unfolding search
    search-Finds fuel seen [] {found} e sound _ closed =
        let same : seen ≡ found = ground arith in
        subst (λ f. Finds seen [] f) same (sound, closed, λ id h. ground (arith, contains-nil id))
    search-Finds zero seen (id ∷ queue) e sound waiting closed = absurd (cc)
    search-Finds (suc fuel) seen (id ∷ queue) {found} e sound waiting closed =
        elim (Bool-cases (contains seen id)) [
          | inl old ↦
              let (sound', closed', kept) =
                search-Finds fuel seen queue (rw (old, search) at e) sound
                  (λ j h. waiting j (ground (arith, contains-cons id queue j)))
                  (λ u v su w.
                    ground (arith, closed u v su w, contains-cons id queue v, eq_iff id v)) in
              (
                sound',
                closed',
                λ j h. kept j (ground (arith, contains-cons id queue j, eq_iff id j)),
              )
          | inr new ↦
              let (sound', closed', kept) =
                search-Finds fuel (id ∷ seen) (push_all queue (outs edges id))
                  (rw (new, listed-adjacency edges id, search) at e)
                  (see seen queue id sound waiting) (enqueue seen queue id waiting)
                  (Closed-see seen queue id closed) in
              (
                sound',
                closed',
                λ j h. kept j (
                    ground (
                      arith,
                      contains-cons id queue j,
                      contains-cons id seen j,
                      contains-push_all queue (outs edges id) j,
                    )),
              )
        ]

    found_of_Reach :
        (found : List String)
        → ((id : String) → contains starts id ≡ true → contains found id ≡ true)
        → Closed found []
        → (id : String) → Reach edges starts id
        → contains found id ≡ true
    found_of_Reach found begun closed id (start h) = begun id h
    found_of_Reach found begun closed id (follow {id = u} r w) =
        ground (arith, closed u id (found_of_Reach found begun closed u r) w, contains-nil id)

    -- The search ends, and what it finds is what walks along the edges lead to from the starts.
    pub reachable_total :
        (found : List String) × (reachable edges starts ≡ some found)
        × ((id : String) → (contains found id ≡ true) ↔ Reach edges starts id)
    unfolding reachable
    reachable_total =
        let queue = push_all [] starts in
        let (found, e) =
          search_ends (length starts + length edges) [] queue
            (omega (arith, length-push_all [] starts, unseen-le edges)) in
        let (sound, closed, kept) =
          search-Finds (length starts + length edges) [] queue e
            (λ id h. absurd (ground (arith, contains-nil id)))
            (λ id h. start (ground (arith, contains-push_all [] starts id, contains-nil id)))
            (λ u v su w. absurd (ground (arith, contains-nil u))) in
        (
          found,
          e,
          λ id. (
            sound id,
            found_of_Reach found
                (λ j h. kept j (ground (arith, contains-push_all [] starts j, contains-nil j)))
                closed id,
          ),
        )
