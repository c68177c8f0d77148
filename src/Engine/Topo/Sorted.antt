-- ===== src/Engine/Topo/Sorted.antt =====
-- The invariant of the sort's loop. With distinct ids the loop ends; what it returns places every
-- node once, and each behind the sources of its edges.
use fancy_flow_rs.Prelude.{
  ℕ, zero, suc, ◌+◌, ◌<◌, List, [], ◌∷◌, ◌++◌, map, append-nil, append_assoc, String, some, ◌≡◌,
  ◌≢◌, ◌⊎◌, inl, inr, refl, sym, subst, ◌∙◌, arith, length, length-append,
}
use fancy_flow_rs.Prelude.BTreeMap.{BTreeMap}
use fancy_flow_rs.Schema.{FlowEdge}
use fancy_flow_rs.Engine.Topo.{Frontier, release, id_at, index_ids, drain}
use fancy_flow_rs.Engine.Topo.Index.{Distinct}
use fancy_flow_rs.Engine.Topo.Counts.{pending}
use fancy_flow_rs.Engine.Topo.Invariant.{Inv, Inv-length, next, next-Inv, head-inside, head-first}

module _ (ids : List String) (edges : List FlowEdge) (d : Distinct ids) where
  abbrev index : BTreeMap ℕ
  index = index_ids [] 0 ids

  abbrev pub names : List ℕ → List String
  names l = map (id_at ids) l

  queue-cases : (q : List ℕ) → (q ≡ []) ⊎ ((u : ℕ) × (rest : List ℕ) × (q ≡ u ∷ rest))
  queue-cases [] = inl refl
  queue-cases (u ∷ rest) = inr (u, rest, refl)

  -- The loop ends.
  pub drain_ends :
      (fuel : ℕ) (done : List ℕ) (f : Frontier)
      → Inv ids edges d done f
      → length ids < fuel + length done
      → (order : List ℕ) × (drain fuel index ids edges done f ≡ some order)
  unfolding drain
  drain_ends zero done f inv p = absurd (omega (arith, p, Inv-length ids edges d done f inv))
  drain_ends (suc fuel) done f inv p = elim (queue-cases f.queue) [
    | inl e ↦ (done, rw e refl)
    | inr (u, rest, e) ↦
        let (order, found) =
          drain_ends fuel (done ++ u ∷ []) (next ids edges d done f u rest e inv)
            (next-Inv ids edges d done f u rest e inv)
            (omega (arith, p, length-append done (u ∷ []))) in
        (order, rw e found)
  ]

  -- In the part of an order behind the places that are given, each place stands behind the sources
  -- of all edges into it.
  abbrev pub Sources : List ℕ → List ℕ → Type 0
  Sources xs [] = Unit
  Sources xs (t ∷ ys) = (pending index t (names xs) edges ≡ 0) × Sources (xs ++ t ∷ []) ys

  drain-nil :
      (fuel : ℕ) (done : List ℕ) (f : Frontier)
      → f.queue ≡ []
      → drain (suc fuel) index ids edges done f ≡ some done
  unfolding drain
  drain-nil fuel done f e = rw e refl

  drain-cons :
      (fuel : ℕ) (done : List ℕ) (f : Frontier) (u : ℕ) (rest : List ℕ)
      → f.queue ≡ u ∷ rest
      → drain (suc fuel) index ids edges done f
        ≡ drain fuel index ids edges
            (done ++ u ∷ [])
            (release index (id_at ids u) edges (record f { queue = rest }))
  unfolding drain
  drain-cons fuel done f u rest e = rw e refl

  drain_zero :
      (done : List ℕ) (f : Frontier) (order : List ℕ) → drain 0 index ids edges done f ≢ some order
  unfolding drain
  drain_zero done f order h = cc

  same_order : (a b : List ℕ) → some a ≡ some b → a ≡ b
  same_order a b e = cc

  -- What a run of the loop from some places on returns.
  abbrev Ordered : List ℕ → List ℕ → Type 0
  Ordered done order =
      (more : List ℕ) × (order ≡ done ++ more)
      × Sources done more
      × ((last : Frontier) × Inv ids edges d order last)

  pub drain-order :
      (fuel : ℕ) (done : List ℕ) (f : Frontier) (order : List ℕ)
      → Inv ids edges d done f
      → drain fuel index ids edges done f ≡ some order
      → Ordered done order
  drain-order zero done f order inv h = absurd (drain_zero done f order h)
  drain-order (suc fuel) done f order inv h = elim (queue-cases f.queue) [
    | inl e ↦
        let same : done ≡ order = same_order done order (sym (drain-nil fuel done f e) ∙ h) in
        ([], sym same ∙ sym (append-nil done), tt, (f, subst (λ l. Inv ids edges d l f) same inv))
    | inr (u, rest, e) ↦
        let (more, split, sources, last) =
          drain-order fuel (done ++ u ∷ []) (next ids edges d done f u rest e inv) order
            (next-Inv ids edges d done f u rest e inv)
            (sym (drain-cons fuel done f u rest e) ∙ h) in
        let first : pending index u (names done) edges ≡ 0 = omega (
          arith,
          inv.degrees u (head-inside ids edges d done f u rest e inv),
          (head-first ids edges d done f u rest e inv).1,
        ) in
        (u ∷ more, split ∙ append_assoc done (u ∷ []) more, (first, sources), last)
  ]
