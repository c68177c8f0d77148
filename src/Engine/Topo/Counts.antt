-- ===== src/Engine/Topo/Counts.antt =====
-- What the sort's loops do to the degrees and to the queue, as counts of edges.
use fancy_flow_rs.Prelude.{
  ℕ, zero, suc, ◌+◌, ◌-◌, ◌≤◌, ◌<◌, List, [], ◌∷◌, ◌++◌, String, Bool, true, false, not, Option,
  some, none, if◌then◌else◌, ◌==◌, ◌&&◌, ◌≡◌, inl, inr, refl, sym, ap, subst, ◌∙◌, arith, nat_beq,
  Option-cases, Bool-cases, length,
}
use fancy_flow_rs.Prelude.BTreeMap
use fancy_flow_rs.Prelude.BTreeMap.{BTreeMap}
use fancy_flow_rs.Schema.{FlowEdge}
use fancy_flow_rs.Registry.KindId.{contains}
use fancy_flow_rs.Engine.Topo.{Frontier, degree, set_degree, count_edges, lower, relax, release}

abbrev pub one_if : Bool → ℕ
one_if true = 1
one_if false = 0

abbrev is_index : Option ℕ → ℕ → Bool
is_index (some i) t = nat_beq i t
is_index none t = false

-- How often a place stands in a list.
unfoldable pub occurs : ℕ → List ℕ → ℕ
occurs t [] = 0
occurs t (i ∷ l) = one_if (nat_beq i t) + occurs t l

pub occurs-append : (t : ℕ) (l m : List ℕ) → occurs t (l ++ m) ≡ occurs t l + occurs t m
unfolding occurs
occurs-append t [] m = omega arith
occurs-append t (i ∷ l) m = omega (arith, occurs-append t l m)

-- Every place is below a bound.
abbrev pub Below : ℕ → List ℕ → Type 0
Below n [] = Unit
Below n (i ∷ l) = (i < n) × Below n l

pub Below-append : (n : ℕ) (l m : List ℕ) → Below n l → Below n m → Below n (l ++ m)
Below-append n [] m p q = q
Below-append n (i ∷ l) m p q = (p.0, Below-append n l m p.1 q)

pub Below-left : (n : ℕ) (l m : List ℕ) → Below n (l ++ m) → Below n l
Below-left n [] m p = tt
Below-left n (i ∷ l) m p = (p.0, Below-left n l m p.1)

pub Below-right : (n : ℕ) (l m : List ℕ) → Below n (l ++ m) → Below n m
Below-right n [] m p = p
Below-right n (i ∷ l) m p = Below-right n l m p.1

length-set_degree : (l : List ℕ) (i v : ℕ) → length (set_degree l i v) ≡ length l
length-set_degree [] i v = refl
length-set_degree (d ∷ l) zero v = refl
length-set_degree (d ∷ l) (suc i) v = ap suc (length-set_degree l i v)

degree-set_degree :
    (l : List ℕ) (i v t : ℕ)
    → t < length l
    → degree (set_degree l i v) t ≡ (if nat_beq i t then v else degree l t)
degree-set_degree [] i v t h = elim h [ ]
degree-set_degree (d ∷ l) zero v zero h = ground arith
degree-set_degree (d ∷ l) zero v (suc t) h = ground arith
degree-set_degree (d ∷ l) (suc i) v zero h = ground arith
degree-set_degree (d ∷ l) (suc i) v (suc t) h =
    ground (arith, degree-set_degree l i v t (omega arith))

module _ (index : BTreeMap ℕ) where
  abbrev pub reads : ℕ → FlowEdge → Bool
  reads t edge = is_index (BTreeMap.get index edge.target) t

  -- The edges into a place whose source is not among the ids.
  unfoldable pub pending : ℕ → List String → List FlowEdge → ℕ
  pending t ids [] = 0
  pending t ids (edge ∷ edges) =
      one_if (reads t edge && not (contains ids edge.source)) + pending t ids edges

  -- The edges into a place from one id.
  unfoldable pub edges_from : ℕ → String → List FlowEdge → ℕ
  edges_from t id [] = 0
  edges_from t id (edge ∷ edges) =
      one_if (reads t edge && edge.source == id) + edges_from t id edges

  pub length-count_edges :
      (edges : List FlowEdge) (deg : List ℕ) → length (count_edges index edges deg) ≡ length deg
  unfolding count_edges
  length-count_edges [] deg = refl
  length-count_edges (edge ∷ edges) deg = elim (Option-cases (BTreeMap.get index edge.target)) [
    | inl e ↦ rw e (length-count_edges edges deg)
    | inr (target, e) ↦ rw e (
        length-count_edges edges (set_degree deg target (degree deg target + 1))
        ∙ length-set_degree deg target (degree deg target + 1))
  ]

  pub degree-count_edges :
      (t : ℕ) (edges : List FlowEdge) (deg : List ℕ)
      → t < length deg
      → degree (count_edges index edges deg) t ≡ degree deg t + pending t [] edges
  unfolding count_edges pending contains
  degree-count_edges t [] deg h = omega arith
  degree-count_edges t (edge ∷ edges) deg h = elim (Option-cases (BTreeMap.get index edge.target)) [
    | inl e ↦ rw e (omega (arith, degree-count_edges t edges deg h))
    | inr (target, e) ↦
        let raised = set_degree deg target (degree deg target + 1) in
        let long = length-set_degree deg target (degree deg target + 1) in
        rw e (
          ground (
            arith,
            degree-count_edges t edges raised (omega (arith, long)),
            degree-set_degree deg target (degree deg target + 1) t h,
          ))
  ]

  abbrev pub Bounded : ℕ → Type 0
  Bounded n = (s : String) (j : ℕ) → BTreeMap.get index s ≡ some j → j < n

  length-lower :
      (target : ℕ) (f : Frontier) → length (lower target f).in_degree ≡ length f.in_degree
  unfolding lower
  length-lower target f = length-set_degree f.in_degree target (degree f.in_degree target - 1)

  module _ (id : String) where
    pub relax-other :
        (edge : FlowEdge) (f : Frontier) → (edge.source == id) ≡ false → relax index id edge f ≡ f
    unfolding relax
    relax-other edge f e = rw e

    pub relax-none :
        (edge : FlowEdge) (f : Frontier)
        → BTreeMap.get index edge.target ≡ none
        → relax index id edge f ≡ f
    unfolding relax
    relax-none edge f e = ground (arith, e)

    pub relax-some :
        (edge : FlowEdge) (f : Frontier) (target : ℕ)
        → (edge.source == id) ≡ true
        → BTreeMap.get index edge.target ≡ some target
        → relax index id edge f ≡ lower target f
    unfolding relax
    relax-some edge f target own e = rw (own, e)

    length-relax :
        (edge : FlowEdge) (f : Frontier)
        → length (relax index id edge f).in_degree ≡ length f.in_degree
    length-relax edge f = elim (Bool-cases (edge.source == id)) [
      | inr other ↦ rw (relax-other edge f other) refl
      | inl own ↦ elim (Option-cases (BTreeMap.get index edge.target)) [
        | inl e ↦ rw (relax-none edge f e) refl
        | inr (target, e) ↦ rw (relax-some edge f target own e) (length-lower target f)
      ]
    ]

    pub length-release :
        (edges : List FlowEdge) (f : Frontier)
        → length (release index id edges f).in_degree ≡ length f.in_degree
    unfolding release
    length-release [] f = refl
    length-release (edge ∷ edges) f =
        length-release edges (relax index id edge f) ∙ length-relax edge f

    edges_from-nil : (t : ℕ) → edges_from t id [] ≡ 0
    unfolding edges_from
    edges_from-nil t = refl

    edges_from-other :
        (t : ℕ) (edge : FlowEdge) (edges : List FlowEdge)
        → (edge.source == id) ≡ false
        → edges_from t id (edge ∷ edges) ≡ edges_from t id edges
    unfolding edges_from
    edges_from-other t edge edges e = ground arith

    edges_from-none :
        (t : ℕ) (edge : FlowEdge) (edges : List FlowEdge)
        → BTreeMap.get index edge.target ≡ none
        → edges_from t id (edge ∷ edges) ≡ edges_from t id edges
    unfolding edges_from
    edges_from-none t edge edges e = ground arith

    edges_from-some :
        (t : ℕ) (edge : FlowEdge) (edges : List FlowEdge) (target : ℕ)
        → (edge.source == id) ≡ true
        → BTreeMap.get index edge.target ≡ some target
        → edges_from t id (edge ∷ edges) ≡ one_if (nat_beq target t) + edges_from t id edges
    unfolding edges_from
    edges_from-some t edge edges target own e = ground arith

    -- What the release of an id does to one place, where so many of the id's edges read the place.
    abbrev Lowered : ℕ → ℕ → Frontier → Frontier → Type 0
    Lowered t k f g =
        (degree g.in_degree t ≡ degree f.in_degree t - k)
        × (occurs t g.queue + one_if (nat_beq (degree f.in_degree t) 0)
            ≡ occurs t f.queue + one_if (nat_beq (degree f.in_degree t - k) 0))

    degree-lower :
        (t target : ℕ) (f : Frontier)
        → t < length f.in_degree
        → degree (lower target f).in_degree t ≡ degree f.in_degree t - one_if (nat_beq target t)
    unfolding lower
    degree-lower t target f h =
        grind (arith, degree-set_degree f.in_degree target (degree f.in_degree target - 1) t h)

    occurs-lower :
        (t target : ℕ) (f : Frontier)
        → occurs t (lower target f).queue
          ≡ occurs t f.queue
            + (if nat_beq target t then one_if (nat_beq (degree f.in_degree t - 1) 0) else 0)
    unfolding lower occurs
    occurs-lower t target f = grind (arith, occurs-append t f.queue (target ∷ []))

    Lowered-step :
        (t target k : ℕ) (f g : Frontier)
        → t < length f.in_degree
        → one_if (nat_beq target t) + k ≤ degree f.in_degree t
        → (k ≤ degree (lower target f).in_degree t → Lowered t k (lower target f) g)
        → Lowered t (one_if (nat_beq target t) + k) f g
    Lowered-step t target k f g h le rest =
        let deg = degree-lower t target f h in
        let occ = occurs-lower t target f in
        let (low, queued) = rest (omega (arith, deg)) in
        (omega (arith, deg, low), grind (arith, deg, occ, queued))

    -- A release lowers each degree by the edges from the id, and queues a place where its degree
    -- becomes zero.
    pub degree-release :
        (t : ℕ) (edges : List FlowEdge) (f : Frontier)
        → t < length f.in_degree
        → edges_from t id edges ≤ degree f.in_degree t
        → Lowered t (edges_from t id edges) f (release index id edges f)
    unfolding release
    degree-release t [] f h le = rw (edges_from-nil t) (omega arith, ground arith)
    degree-release t (edge ∷ edges) f h le = elim (Bool-cases (edge.source == id)) [
      | inr other ↦
          let e = edges_from-other t edge edges other in
          lowered-by e (relax-other edge f other) (degree-release t edges f h (omega (arith, e)))
      | inl own ↦ elim (Option-cases (BTreeMap.get index edge.target)) [
        | inl nowhere ↦
            let e = edges_from-none t edge edges nowhere in
            lowered-by e (relax-none edge f nowhere) (degree-release t edges f h (omega (arith, e)))
        | inr (target, there) ↦
            let e = edges_from-some t edge edges target own there in
            lowered-by e (relax-some edge f target own there) (
              Lowered-step t target (edges_from t id edges) f
                (release index id edges (lower target f)) h (omega (arith, e))
                (degree-release t edges (lower target f) (omega (arith, length-lower target f, h))))
      ]
    ]
      where
        lowered-by :
            {k : ℕ} {g : Frontier}
            → edges_from t id (edge ∷ edges) ≡ k
            → relax index id edge f ≡ g
            → Lowered t k f (release index id edges g)
            → Lowered t
                (edges_from t id (edge ∷ edges))
                f
                (release index id edges (relax index id edge f))
        lowered-by {k} p q r =
            subst (λ j. Lowered t j f (release index id edges (relax index id edge f))) (sym p)
              (subst (λ g. Lowered t k f (release index id edges g)) (sym q) r)
