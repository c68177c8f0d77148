-- ===== src/Engine/Topo/Places.antt =====
-- Lists of places below a bound: none twice means at most as many as the bound.
use fancy_flow_rs.Prelude.{
  ℕ, zero, suc, ◌+◌, ◌≤◌, ◌<◌, List, [], ◌∷◌, if◌then◌else◌, ◌≡◌, inl, inr, refl, arith, ltb,
  nat_beq, Bool-cases, length,
}
use fancy_flow_rs.Engine.Topo.Counts.{occurs, Below}

-- How often the places below a bound stand in a list, altogether.
unfoldable pub total : ℕ → List ℕ → ℕ
total zero l = 0
total (suc n) l = occurs n l + total n l

total-nil : (n : ℕ) → total n [] ≡ 0
unfolding total occurs
total-nil zero = refl
total-nil (suc n) = omega (arith, total-nil n)

total-cons : (n i : ℕ) (l : List ℕ) → total n (i ∷ l) ≡ (if ltb i n then 1 else 0) + total n l
unfolding total occurs
total-cons zero i l = ground arith
total-cons (suc n) i l = ground (arith, total-cons n i l)

pub total-length : (n : ℕ) (l : List ℕ) → Below n l → total n l ≡ length l
total-length n [] b = total-nil n
total-length n (i ∷ l) b = ground (arith, total-cons n i l, total-length n l b.1, b.0)

pub total-le : (n : ℕ) (l : List ℕ) → ((t : ℕ) → t < n → occurs t l ≤ 1) → total n l ≤ n
unfolding total
total-le zero l h = omega arith
total-le (suc n) l h = omega (arith, total-le n l (λ t p. h t (omega arith)), h n (omega arith))

-- So many places as there are below the bound, none twice: each stands once.
pub total-full :
    (n : ℕ) (l : List ℕ)
    → ((t : ℕ) → t < n → occurs t l ≤ 1)
    → total n l ≡ n
    → (t : ℕ) → t < n
    → occurs t l ≡ 1
unfolding total
total-full zero l h e t p = elim p [ ]
total-full (suc n) l h e t p =
    let below = total-le n l (λ t p. h t (omega arith)) in
    let here = h n (omega arith) in
    elim (Bool-cases (nat_beq t n)) [
      | inl same ↦ let at : t ≡ n = ground arith in rw at (omega (arith, e, below, here))
      | inr other ↦
          total-full n l (λ t p. h t (omega arith)) (omega (arith, e, below, here)) t (ground arith)
    ]
