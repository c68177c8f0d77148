-- ===== src/Engine/Topo/Invariant.antt =====
-- The invariant of the sort's loop, for distinct ids.
use fancy_flow_rs.Prelude.{
  ℕ, ◌+◌, ◌-◌, ◌≤◌, ◌<◌, List, [], ◌∷◌, ◌++◌, map, String, Bool, true, false, ◌≡◌, refl, ap, subst,
  ◌∙◌, arith, nat_beq, length, length-append,
}
use fancy_flow_rs.Prelude.BTreeMap.{BTreeMap}
use fancy_flow_rs.Schema.{FlowEdge}
use fancy_flow_rs.Registry.KindId.{contains}
use fancy_flow_rs.Engine.Topo.{
  Frontier, degree, zeros, count_edges, zero_degrees, release, id_at, index_ids, start_frontier,
}
use fancy_flow_rs.Engine.Topo.Index.{Distinct, index-at}
use fancy_flow_rs.Engine.Topo.Counts.{
  one_if, occurs, occurs-append, Below, Below-append, Below-left, Below-right, pending, edges_from,
  Bounded, length-count_edges, degree-count_edges, length-release, degree-release,
}
use fancy_flow_rs.Engine.Topo.Pending.{
  pending-place, absent, Below-release, occurs-zero_degrees, Below-zero_degrees, length-zeros,
  degree-zeros,
}
use fancy_flow_rs.Engine.Topo.Places.{total-length, total-le}

module _ (ids : List String) (edges : List FlowEdge) (d : Distinct ids) where
  abbrev pub index : BTreeMap ℕ
  index = index_ids [] 0 ids

  abbrev pub names : List ℕ → List String
  names l = map (id_at ids) l

  -- The invariant: each degree counts the edges whose source is not placed, and a place stands once
  -- among the placed and the queued ones exactly where its degree is zero.
  pub record Inv (done : List ℕ) (f : Frontier) : Type 0 where
    pub size : length f.in_degree ≡ length ids
    pub degrees :
        (t : ℕ) → t < length ids → degree f.in_degree t ≡ pending index t (names done) edges
    pub once :
        (t : ℕ)
        → t < length ids
        → occurs t (done ++ f.queue) ≡ one_if (nat_beq (degree f.in_degree t) 0)
    pub inside : Below (length ids) (done ++ f.queue)

  bounded : Bounded index (length ids)
  bounded s j h = (index-at ids s j h).0

  pub start-Inv : Inv [] (start_frontier ids edges)
  unfolding start_frontier
  start-Inv =
      let long : length (count_edges index edges (zeros (length ids))) ≡ length ids =
        length-count_edges index edges (zeros (length ids)) ∙ length-zeros (length ids) in
      let counted = count_edges index edges (zeros (length ids)) in
      record {
        size = long;
        degrees = λ t h. omega (
          arith,
          degree-count_edges index t edges (zeros (length ids))
              (omega (arith, h, length-zeros (length ids))),
          degree-zeros (length ids) t,
        );
        once = λ t h.
            let at : 0 + t ≡ t = omega arith in
            subst (λ i. occurs i (zero_degrees 0 counted) ≡ one_if (nat_beq (degree counted t) 0))
              at (occurs-zero_degrees t 0 counted (omega (arith, h, long)));
        inside =
            let size : 0 + length counted ≡ length ids = omega (arith, long) in
            subst (λ n. Below n (zero_degrees 0 counted)) size (Below-zero_degrees 0 counted);
      }

  one_if-le : (b : Bool) → one_if b ≤ 1
  one_if-le true = omega arith
  one_if-le false = omega arith

  pub once-le :
      (done : List ℕ) (f : Frontier)
      → Inv done f
      → (t : ℕ) → t < length ids
      → occurs t (done ++ f.queue) ≤ 1
  once-le done f inv t h = omega (arith, inv.once t h, one_if-le (nat_beq (degree f.in_degree t) 0))

  pub Inv-length : (done : List ℕ) (f : Frontier) → Inv done f → length done ≤ length ids
  Inv-length done f inv = omega (
    arith,
    total-le (length ids) (done ++ f.queue) (once-le done f inv),
    total-length (length ids) (done ++ f.queue) inv.inside,
    length-append done f.queue,
  )

  -- A round: the place at the head of the queue is placed, and its edges are released.
  module _ (done : List ℕ) (f : Frontier) (u : ℕ) (rest : List ℕ) (h : f.queue ≡ u ∷ rest)
      (inv : Inv done f) where
    abbrev pub next : Frontier
    next = release index (id_at ids u) edges (record f { queue = rest })

    inside_queue : Below (length ids) (done ++ u ∷ rest)
    inside_queue = subst (λ q. Below (length ids) (done ++ q)) h inv.inside

    once_queue :
        (t : ℕ)
        → t < length ids
        → occurs t (done ++ u ∷ rest) ≡ one_if (nat_beq (degree f.in_degree t) 0)
    once_queue t p =
        subst (λ q. occurs t (done ++ q) ≡ one_if (nat_beq (degree f.in_degree t) 0)) h
          (inv.once t p)

    pub head-inside : u < length ids
    head-inside = (Below-right (length ids) done (u ∷ rest) inside_queue).0

    -- The head's degree is zero, and it is not placed yet.
    pub head-first : (occurs u done ≡ 0) × (degree f.in_degree u ≡ 0)
    unfolding occurs
    head-first = ground (
      arith,
      once_queue u head-inside,
      occurs-append u done (u ∷ rest),
      one_if-le (nat_beq (degree f.in_degree u) 0),
    )

    head-absent : contains (names done) (id_at ids u) ≡ false
    head-absent =
        absent ids done u d (Below-left (length ids) done (u ∷ rest) inside_queue) head-inside
          head-first.0

    names-snoc : (l : List ℕ) → names (l ++ u ∷ []) ≡ names l ++ id_at ids u ∷ []
    names-snoc [] = refl
    names-snoc (i ∷ l) = ap (◌∷◌ (id_at ids i)) (names-snoc l)

    pending-next :
        (t : ℕ)
        → pending index t (names done) edges
          ≡ edges_from index t (id_at ids u) edges + pending index t (names (done ++ u ∷ [])) edges
    pending-next t =
        rw (names-snoc done) (pending-place index t (names done) (id_at ids u) edges head-absent)

    released :
        (t : ℕ)
        → t < length ids
        → (degree next.in_degree t ≡ degree f.in_degree t - edges_from index t (id_at ids u) edges)
          × (occurs t next.queue + one_if (nat_beq (degree f.in_degree t) 0)
              ≡ occurs t rest
                + one_if
                    (nat_beq (degree f.in_degree t - edges_from index t (id_at ids u) edges) 0))
    released t p =
        degree-release index (id_at ids u) t edges (record f { queue = rest })
          (omega (arith, inv.size, p)) (omega (arith, inv.degrees t p, pending-next t))

    once-next :
        (t : ℕ)
        → t < length ids
        → occurs t ((done ++ u ∷ []) ++ next.queue) ≡ one_if (nat_beq (degree next.in_degree t) 0)
    unfolding occurs
    once-next t p =
        let (low, queued) = released t p in
        let before = once_queue t p in
        let split = occurs-append t done (u ∷ rest) in
        let whole = occurs-append t (done ++ u ∷ []) next.queue in
        let placed = occurs-append t done (u ∷ []) in
        let here : one_if (nat_beq (degree next.in_degree t) 0)
            ≡ one_if (nat_beq (degree f.in_degree t - edges_from index t (id_at ids u) edges) 0) =
          ap (λ n. one_if (nat_beq n 0)) low in
        omega (arith, queued, before, split, whole, placed, here)

    pub next-Inv : Inv (done ++ u ∷ []) next
    next-Inv = record {
      size = length-release index (id_at ids u) edges (record f { queue = rest }) ∙ inv.size;
      degrees = λ t p. omega (arith, (released t p).0, inv.degrees t p, pending-next t);
      once = once-next;
      inside =
          Below-append (length ids) (done ++ u ∷ []) next.queue
            (Below-append (length ids) done (u ∷ [])
              (Below-left (length ids) done (u ∷ rest) inside_queue) (head-inside, tt))
            (Below-release index (length ids) bounded (id_at ids u) edges
              (record f { queue = rest })
              (Below-right (length ids) done (u ∷ rest) inside_queue).1);
    }
