-- ===== src/Engine/Topo/Pending.antt =====
-- How the pending edges fall as ids are placed, and what a release keeps.
use fancy_flow_rs.Prelude.{
  ℕ, zero, suc, ◌+◌, ◌-◌, ◌<◌, List, [], ◌∷◌, ◌++◌, map, String, true, false, ◌==◌, ◌||◌, ◌≡◌, inl,
  inr, refl, ap, subst, arith, eq_iff, eq_refl, nat_beq, Option-cases, Bool-cases, ==-cases, length,
}
use fancy_flow_rs.Prelude.BTreeMap
use fancy_flow_rs.Prelude.BTreeMap.{BTreeMap}
use fancy_flow_rs.Schema.{FlowEdge}
use fancy_flow_rs.Registry.KindId.{contains}
use fancy_flow_rs.Engine.Topo.{Frontier, degree, zeros, zero_degrees, lower, relax, release, id_at}
use fancy_flow_rs.Engine.Topo.Index.{Distinct}
use fancy_flow_rs.Engine.Topo.Counts.{
  one_if, occurs, Below, Below-append, pending, edges_from, Bounded, relax-other, relax-none,
  relax-some,
}

contains-snoc :
    (ids : List String) (s t : String) → contains (ids ++ s ∷ []) t ≡ (contains ids t || s == t)
unfolding contains
contains-snoc [] s t = ground arith
contains-snoc (x ∷ ids) s t = ground (arith, contains-snoc ids s t)

-- Placing one more id takes its edges off the pending ones.
pub pending-place :
    (index : BTreeMap ℕ) (t : ℕ) (ids : List String) (id : String) (edges : List FlowEdge)
    → contains ids id ≡ false
    → pending index t ids edges
      ≡ edges_from index t id edges + pending index t (ids ++ id ∷ []) edges
unfolding pending edges_from
pending-place index t ids id [] new = omega arith
pending-place index t ids id (edge ∷ edges) new =
    let rest = pending-place index t ids id edges new in
    let snoc = contains-snoc ids id edge.source in
    elim (==-cases edge.source id) [
      | inl (same, e) ↦
          let old : contains ids edge.source ≡ false = rw same new in
          let here : (id == edge.source) ≡ true = rw same (eq_refl id) in
          ground (arith, rest, snoc, old, here, e)
      | inr (other, e) ↦ ground (arith, rest, snoc, e, eq_iff id edge.source, eq_iff edge.source id)
    ]

-- A place that is not in a list has an id that the list's places do not have.
pub absent :
    (ids : List String) (l : List ℕ) (u : ℕ)
    → Distinct ids
    → Below (length ids) l
    → u < length ids
    → occurs u l ≡ 0
    → contains (map (id_at ids) l) (id_at ids u) ≡ false
unfolding contains occurs
absent ids [] u d b h z = refl
absent ids (i ∷ l) u d b h z = elim (==-cases (id_at ids i) (id_at ids u)) [
  | inl (same, e) ↦ let at : i ≡ u = d i u b.0 h same in absurd (ground (arith, z, at))
  | inr (other, e) ↦ rw e (absent ids l u d b.1 h (ground (arith, z)))
]

module _ (index : BTreeMap ℕ) (n : ℕ) (bounded : Bounded index n) (id : String) where
  Below-lower :
      (target : ℕ) (f : Frontier) → target < n → Below n f.queue → Below n (lower target f).queue
  unfolding lower
  Below-lower target f h b = elim (Bool-cases (nat_beq (degree f.in_degree target - 1) 0)) [
    | inl e ↦ rw e (Below-append n f.queue (target ∷ []) b (h, tt))
    | inr e ↦ rw e b
  ]

  Below-relax :
      (edge : FlowEdge) (f : Frontier) → Below n f.queue → Below n (relax index id edge f).queue
  Below-relax edge f b = elim (Bool-cases (edge.source == id)) [
    | inr other ↦ rw (relax-other index id edge f other) b
    | inl own ↦ elim (Option-cases (BTreeMap.get index edge.target)) [
      | inl e ↦ rw (relax-none index id edge f e) b
      | inr (target, e) ↦
          rw (relax-some index id edge f target own e)
            (Below-lower target f (bounded edge.target target e) b)
    ]
  ]

  pub Below-release :
      (edges : List FlowEdge) (f : Frontier)
      → Below n f.queue
      → Below n (release index id edges f).queue
  unfolding release
  Below-release [] f b = b
  Below-release (edge ∷ edges) f b =
      Below-release edges (relax index id edge f) (Below-relax edge f b)

occurs-zero_degrees_before : (j i : ℕ) (l : List ℕ) → j < i → occurs j (zero_degrees i l) ≡ 0
unfolding occurs zero_degrees
occurs-zero_degrees_before j i [] h = refl
occurs-zero_degrees_before j i (d ∷ l) h =
    ground (arith, occurs-zero_degrees_before j (i + 1) l (omega arith))

-- The queue at the start: each place with degree zero, once.
pub occurs-zero_degrees :
    (t i : ℕ) (l : List ℕ)
    → t < length l
    → occurs (i + t) (zero_degrees i l) ≡ one_if (nat_beq (degree l t) 0)
unfolding occurs zero_degrees
occurs-zero_degrees t i [] h = elim h [ ]
occurs-zero_degrees zero i (d ∷ l) h =
    ground (arith, occurs-zero_degrees_before i (i + 1) l (omega arith))
occurs-zero_degrees (suc t) i (d ∷ l) h =
    let same : i + suc t ≡ (i + 1) + t = omega arith in
    rw same (ground (arith, occurs-zero_degrees t (i + 1) l (omega arith)))

pub Below-zero_degrees : (i : ℕ) (l : List ℕ) → Below (i + length l) (zero_degrees i l)
unfolding zero_degrees
Below-zero_degrees i [] = tt
Below-zero_degrees i (d ∷ l) =
    let rest : Below (i + suc (length l)) (zero_degrees (i + 1) l) =
      let same : (i + 1) + length l ≡ i + suc (length l) = omega arith in
      subst (λ n. Below n (zero_degrees (i + 1) l)) same (Below-zero_degrees (i + 1) l) in
    elim (Bool-cases (nat_beq d 0)) [ inl e ↦ rw e (omega arith, rest) | inr e ↦ rw e rest ]

pub length-zeros : (n : ℕ) → length (zeros n) ≡ n
length-zeros zero = refl
length-zeros (suc n) = ap suc (length-zeros n)

pub degree-zeros : (n t : ℕ) → degree (zeros n) t ≡ 0
degree-zeros zero t = refl
degree-zeros (suc n) zero = refl
degree-zeros (suc n) (suc t) = degree-zeros n t
