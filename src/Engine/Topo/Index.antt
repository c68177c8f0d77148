-- ===== src/Engine/Topo/Index.antt =====
-- The sort's index from an id to a node, and the test that the ids are distinct.
use fancy_flow_rs.Prelude.{
  ℕ, zero, suc, ◌+◌, ◌-◌, ◌≤◌, ◌<◌, List, [], ◌∷◌, ◌++◌, String, false, some, if◌then◌else◌, ◌==◌,
  ◌||◌, ◌≡◌, ◌≢◌, ◌⊎◌, inl, inr, refl, sym, ap, subst, ◌∙◌, arith, eq_iff, eq_refl, Bool-cases,
  ==-cases, length, length-append,
}
use fancy_flow_rs.Prelude.BTreeMap
use fancy_flow_rs.Prelude.BTreeMap.{BTreeMap, get-insert}
use fancy_flow_rs.Registry.KindId.{contains, dedup_push, dedup_extend}
use fancy_flow_rs.Engine.Topo.{id_at, index_ids}

-- Whatever the index answers is a place at which the id stands.
index_ids_sound :
    (ids : List String) (m : BTreeMap ℕ) (k : ℕ) (s : String) (j : ℕ)
    → BTreeMap.get (index_ids m k ids) s ≡ some j
    → (BTreeMap.get m s ≡ some j) ⊎ ((k ≤ j) × (j < k + length ids) × (id_at ids (j - k) ≡ s))
unfolding index_ids
index_ids_sound [] m k s j h = inl h
index_ids_sound (id ∷ ids) m k s j h =
    elim (index_ids_sound ids (BTreeMap.insert m id k) (k + 1) s j h) [
      | inr (le, lt, e) ↦
          let less : j - k ≡ suc (j - (k + 1)) = omega arith in
          inr (omega arith, omega arith, rw less e)
      | inl here ↦ elim (==-cases id s) [
        | inl (same, e) ↦
            let at : k ≡ j = ground (arith, get-insert m id k s, eq_iff id s) in
            let less : j - k ≡ 0 = omega arith in inr (omega arith, omega arith, rw less same)
        | inr (other, e) ↦ inl (ground (arith, get-insert m id k s))
      ]
    ]

pub index-at :
    (ids : List String) (s : String) (j : ℕ)
    → BTreeMap.get (index_ids [] 0 ids) s ≡ some j
    → (j < length ids) × (id_at ids j ≡ s)
unfolding BTreeMap.get
index-at ids s j h = elim (index_ids_sound ids [] 0 s j h) [
  | inl gone ↦ cc
  | inr (le, lt, e) ↦
      let same : j - 0 ≡ j = omega arith in (omega arith, subst (λ i. id_at ids i ≡ s) same e)
]

-- An id that the map knows stays known.
index_ids-keeps :
    (ids : List String) (m : BTreeMap ℕ) (k : ℕ) (s : String) (j : ℕ)
    → BTreeMap.get m s ≡ some j
    → (j' : ℕ) × (BTreeMap.get (index_ids m k ids) s ≡ some j')
unfolding index_ids
index_ids-keeps [] m k s j h = (j, h)
index_ids-keeps (id ∷ ids) m k s j h = elim (==-cases id s) [
  | inl (same, e) ↦
      index_ids-keeps ids (BTreeMap.insert m id k) (k + 1) s k (ground (arith, get-insert m id k s))
  | inr (other, e) ↦
      index_ids-keeps ids (BTreeMap.insert m id k) (k + 1) s j (ground (arith, get-insert m id k s))
]

index_ids-known :
    (ids : List String) (m : BTreeMap ℕ) (k i : ℕ)
    → i < length ids
    → (j : ℕ) × (BTreeMap.get (index_ids m k ids) (id_at ids i) ≡ some j)
unfolding index_ids
index_ids-known [] m k i h = elim h [ ]
index_ids-known (id ∷ ids) m k zero h =
    index_ids-keeps ids (BTreeMap.insert m id k) (k + 1) id k
      (ground (arith, get-insert m id k id, eq_refl id))
index_ids-known (id ∷ ids) m k (suc i) h =
    index_ids-known ids (BTreeMap.insert m id k) (k + 1) i (omega arith)

-- No two places hold one id.
abbrev pub Distinct : List String → Type 0
Distinct ids = (i j : ℕ) → i < length ids → j < length ids → id_at ids i ≡ id_at ids j → i ≡ j

pub index-known :
    (ids : List String) (i : ℕ)
    → Distinct ids
    → i < length ids
    → BTreeMap.get (index_ids [] 0 ids) (id_at ids i) ≡ some i
index-known ids i d h =
    let (j, found) = index_ids-known ids [] 0 i h in
    let (inside, e) = index-at ids (id_at ids i) j found in found ∙ ap some (d j i inside h e)

-- Each item is new where it is pushed.
abbrev Fresh : List String → List String → Type 0
Fresh acc [] = Unit
Fresh acc (s ∷ l) = (contains acc s ≡ false) × Fresh (acc ++ s ∷ []) l

contains-append :
    (acc : List String) (s t : String) → contains (acc ++ s ∷ []) t ≡ (contains acc t || s == t)
unfolding contains
contains-append [] s t = ground arith
contains-append (x ∷ acc) s t = ground (arith, contains-append acc s t)

length-dedup_extend-le : (l acc : List String) → length (dedup_extend acc l) ≤ length acc + length l
unfolding dedup_extend dedup_push
length-dedup_extend-le [] acc = omega arith
length-dedup_extend-le (s ∷ l) acc = elim (Bool-cases (contains acc s)) [
  | inl seen ↦ rw seen (omega (arith, length-dedup_extend-le l acc))
  | inr new ↦
      rw new (omega (arith, length-dedup_extend-le l (acc ++ s ∷ []), length-append acc (s ∷ [])))
]

dedup_extend-Fresh :
    (l acc : List String) → length (dedup_extend acc l) ≡ length acc + length l → Fresh acc l
unfolding dedup_extend dedup_push
dedup_extend-Fresh [] acc h = tt
dedup_extend-Fresh (s ∷ l) acc h = elim (Bool-cases (contains acc s)) [
  | inl seen ↦
      let short : length (dedup_extend acc l) ≡ length acc + suc (length l) =
        subst
          (λ b.
            length (dedup_extend (if b then acc else acc ++ s ∷ []) l)
            ≡ length acc + suc (length l))
          seen h in
      absurd (omega (arith, length-dedup_extend-le l acc, short))
  | inr new ↦
      let long : length (dedup_extend (acc ++ s ∷ []) l) ≡ length acc + suc (length l) =
        subst
          (λ b.
            length (dedup_extend (if b then acc else acc ++ s ∷ []) l)
            ≡ length acc + suc (length l))
          new h in
      (new, dedup_extend-Fresh l (acc ++ s ∷ []) (omega (arith, long, length-append acc (s ∷ []))))
]

Fresh-absent :
    (l acc : List String) (i : ℕ) → Fresh acc l → i < length l → contains acc (id_at l i) ≡ false
Fresh-absent [] acc i f h = elim h [ ]
Fresh-absent (s ∷ l) acc zero f h = f.0
Fresh-absent (s ∷ l) acc (suc i) f h =
    ground
      (arith, Fresh-absent l (acc ++ s ∷ []) i f.1 (omega arith), contains-append acc s (id_at l i))

Fresh-ne :
    (l acc : List String) (s : String) (i : ℕ)
    → Fresh (acc ++ s ∷ []) l
    → i < length l
    → s ≢ id_at l i
Fresh-ne l acc s i f h e = ground (
  arith,
  Fresh-absent l (acc ++ s ∷ []) i f h,
  contains-append acc s (id_at l i),
  eq_iff s (id_at l i),
)

Fresh-Distinct : (l acc : List String) → Fresh acc l → Distinct l
Fresh-Distinct [] acc f i j p q e = elim p [ ]
Fresh-Distinct (s ∷ l) acc f zero zero p q e = refl
Fresh-Distinct (s ∷ l) acc f zero (suc j) p q e = absurd (Fresh-ne l acc s j f.1 (omega arith) e)
Fresh-Distinct (s ∷ l) acc f (suc i) zero p q e =
    absurd (Fresh-ne l acc s i f.1 (omega arith) (sym e))
Fresh-Distinct (s ∷ l) acc f (suc i) (suc j) p q e =
    ap suc (Fresh-Distinct l (acc ++ s ∷ []) f.1 i j (omega arith) (omega arith) e)

-- The test of the source: as many distinct ids as nodes.
pub dedup_extend-Distinct :
    (ids : List String) → length (dedup_extend [] ids) ≡ length ids → Distinct ids
dedup_extend-Distinct ids h = Fresh-Distinct ids [] (dedup_extend-Fresh ids [] (omega (arith, h)))
