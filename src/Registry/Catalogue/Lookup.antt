-- ===== src/Registry/Catalogue/Lookup.antt =====
-- A registered kind is found under each of its ids.
use fancy_flow_rs.Prelude.{
  ℕ, zero, suc, ◌<◌, List, [], ◌∷◌, ◌++◌, String, Bool, true, false, some, if◌then◌else◌, ◌==◌,
  ◌||◌, ◌≡◌, inl, inr, refl, ap, subst, arith, eq_refl, Option-cases, Bool-cases, ==-cases, length,
  get_elem?, length-append, ◌<>◌,
}
use fancy_flow_rs.Prelude.BTreeMap
use fancy_flow_rs.Prelude.BTreeMap.{BTreeMap, get-insert}
use fancy_flow_rs.Platform.{Platform}
use fancy_flow_rs.Registry.Kind.{NodeKind, ids}
use fancy_flow_rs.Registry.KindId.{
  contains, dedup_push, dedup_extend, variants, bare, namespace, legacy_namespace,
}
use fancy_flow_rs.Registry.Catalogue.{
  NodeKindRegistry, set_at, spell_all, id_spellings, index_all, register, get,
}

contains-push :
    (l : List String) (s t : String) → contains (l ++ s ∷ []) t ≡ (contains l t || s == t)
unfolding contains
contains-push [] s t = ground arith
contains-push (x ∷ l) s t = ground (arith, contains-push l s t)

contains-dedup_push :
    (l : List String) (s t : String) → contains (dedup_push l s) t ≡ (contains l t || s == t)
unfolding dedup_push
contains-dedup_push l s t = elim (==-cases s t) [
  | inl (same, e) ↦ elim (Bool-cases (contains l s)) [
    | inl seen ↦
        let there : contains l t ≡ true = subst (λ x. contains l x ≡ true) same seen in
        rw seen (ground (arith, there))
    | inr new ↦ rw new (contains-push l s t)
  ]
  | inr (other, e) ↦ elim (Bool-cases (contains l s)) [
    | inl seen ↦ rw seen (ground (arith, e))
    | inr new ↦ rw new (contains-push l s t)
  ]
]

contains-dedup_extend :
    (m l : List String) (t : String)
    → contains (dedup_extend l m) t ≡ (contains l t || contains m t)
unfolding dedup_extend contains
contains-dedup_extend [] l t = ground arith
contains-dedup_extend (s ∷ m) l t =
    ground (arith, contains-dedup_extend m (dedup_push l s) t, contains-dedup_push l s t)

contains-cons :
    (s : String) (l : List String) (t : String) → contains (s ∷ l) t ≡ (s == t || contains l t)
unfolding contains
contains-cons s l t = refl

contains-head : (s : String) (l : List String) → contains (s ∷ l) s ≡ true
contains-head s l = rw (contains-cons s l s, eq_refl s) refl

-- An id is one of its own spellings.
contains-variants : (id : String) → contains (variants id) id ≡ true
unfolding variants
contains-variants id =
    let others = (namespace <> bare id) ∷ (legacy_namespace <> bare id) ∷ bare id ∷ [] in
    or_right (contains [] id) (contains (id ∷ others) id)
      (contains-dedup_extend (id ∷ others) [] id) (contains-head id others)
  where
    or_right : {c : Bool} (a b : Bool) → c ≡ (a || b) → b ≡ true → c ≡ true
    or_right a b e h = ground (arith, e, h)

-- A name among the first list or the ids stays a name once the next id's spellings are pushed.
spell_next :
    (s : String) (l out : List String) (t : String)
    → (contains out t || contains (s ∷ l) t) ≡ true
    → (contains (dedup_extend out (variants s)) t || contains l t) ≡ true
spell_next s l out t h = elim (==-cases s t) [
  | inl (same, e) ↦
      let own : contains (variants s) t ≡ true =
        subst (λ x. contains (variants s) x ≡ true) same (contains-variants s) in
      rw (contains-dedup_extend (variants s) out t, own) (or_true (contains out t) (contains l t))
  | inr (other, e) ↦
      let known : (contains out t || contains l t) ≡ true =
        ground (arith, h, contains-cons s l t, e) in
      rw (contains-dedup_extend (variants s) out t)
        (or_between (contains out t) (contains (variants s) t) (contains l t) known)
]
  where
    or_true : (a b : Bool) → ((a || true) || b) ≡ true
    or_true a b = ground arith

    or_between : (a b c : Bool) → (a || c) ≡ true → ((a || b) || c) ≡ true
    or_between a b c h = ground arith

contains-spell_all :
    (l out : List String) (t : String)
    → (contains out t || contains l t) ≡ true
    → contains (spell_all out l) t ≡ true
unfolding spell_all
contains-spell_all [] out t h = or_nothing (contains out t) (contains [] t) refl h
  where
    or_nothing : (a b : Bool) → b ≡ false → (a || b) ≡ true → a ≡ true
    or_nothing a b e h = ground arith
contains-spell_all (s ∷ l) out t h =
    contains-spell_all l (dedup_extend out (variants s)) t (spell_next s l out t h)

get-index_all :
    (index : BTreeMap ℕ) (l : List String) (at : ℕ) (s : String)
    → BTreeMap.get (index_all index l at) s
      ≡ (if contains l s then some at else BTreeMap.get index s)
unfolding index_all contains
get-index_all index [] at s = refl
get-index_all index (id ∷ l) at s =
    ground (arith, get-index_all (BTreeMap.insert index id at) l at s, get-insert index id at s)

index_all-bound :
    (index : BTreeMap ℕ) (l : List String) (place : ℕ) (s : String) (at n : ℕ)
    → BTreeMap.get (index_all index l place) s ≡ some at
    → (BTreeMap.get index s ≡ some at → at < n)
    → place < n
    → at < n
index_all-bound index l place s at n h old p = elim (Bool-cases (contains l s)) [
  | inl named ↦
      let same : place ≡ at = ground (arith, h, get-index_all index l place s, named) in
      omega (arith, p, same)
  | inr other ↦ old (ground (arith, h, get-index_all index l place s, other))
]

module _ ⦃P : Platform⦄ where
  get_elem?-set_at :
      (l : List NodeKind) (i : ℕ) (kind : NodeKind)
      → i < length l
      → get_elem? (set_at l i kind) i ≡ some kind
  unfolding set_at
  get_elem?-set_at [] i kind h = elim h [ ]
  get_elem?-set_at (x ∷ l) zero kind h = refl
  get_elem?-set_at (x ∷ l) (suc i) kind h = get_elem?-set_at l i kind (omega arith)

  get_elem?-last :
      (l : List NodeKind) (kind : NodeKind) → get_elem? (l ++ kind ∷ []) (length l) ≡ some kind
  get_elem?-last [] kind = refl
  get_elem?-last (x ∷ l) kind = get_elem?-last l kind

  length-set_at :
      (l : List NodeKind) (i : ℕ) (kind : NodeKind) → length (set_at l i kind) ≡ length l
  unfolding set_at
  length-set_at [] i kind = refl
  length-set_at (x ∷ l) zero kind = refl
  length-set_at (x ∷ l) (suc i) kind = ap suc (length-set_at l i kind)

  -- Each place that the index names is one of the kinds.
  abbrev pub IsIndexed : NodeKindRegistry → Type 0
  IsIndexed registry =
      (s : String) (at : ℕ) → BTreeMap.get registry.index s ≡ some at → at < length registry.kinds

  -- Registering a kind, new or again, keeps every place of the index within the kinds.
  pub register-IsIndexed :
      (registry : NodeKindRegistry) (kind : NodeKind)
      → IsIndexed registry
      → (s : String) (at : ℕ) → BTreeMap.get (register registry kind).index s ≡ some at
      → at < length (register registry kind).kinds
  unfolding register
  register-IsIndexed registry kind inv s at =
      elim (Option-cases (BTreeMap.get registry.index kind.name)) [
        | inl new ↦
            rw (new, register)
              λ h.
                let long = length-append registry.kinds (kind ∷ []) in
                index_all-bound registry.index (id_spellings kind) (length registry.kinds) s at _ h
                  (λ k. omega (arith, inv s at k, long)) (omega (arith, long))
        | inr (existing, old) ↦
            rw (old, register)
              λ h.
                let long = length-set_at registry.kinds existing kind in
                index_all-bound registry.index (id_spellings kind) existing s at _ h
                  (λ k. omega (arith, inv s at k, long))
                  (omega (arith, inv kind.name existing old, long))
      ]

  get-found :
      (registry : NodeKindRegistry) (id : String) (at : ℕ) (kind : NodeKind)
      → BTreeMap.get registry.index id ≡ some at
      → get_elem? registry.kinds at ≡ some kind
      → get registry id ≡ some kind
  unfolding get
  get-found registry id at kind h k = rw (h, get) k

  -- A kind that is registered, new or in place of an earlier one, is found under its name and under each
  -- of its aliases.
  pub get-register :
      (registry : NodeKindRegistry) (kind : NodeKind) (id : String)
      → IsIndexed registry
      → contains (ids kind) id ≡ true
      → get (register registry kind) id ≡ some kind
  unfolding register id_spellings
  get-register registry kind id inv named =
      let spelled : contains (id_spellings kind) id ≡ true =
        contains-spell_all (ids kind) [] id named in
      elim (Option-cases (BTreeMap.get registry.index kind.name)) [
        | inl new ↦
            rw (new, register)
              (get-found
                (record {
                  kinds = registry.kinds ++ kind ∷ [];
                  index = index_all registry.index (id_spellings kind) (length registry.kinds);
                })
                id (length registry.kinds) kind
                (ground (
                  arith,
                  get-index_all registry.index (id_spellings kind) (length registry.kinds) id,
                  spelled,
                ))
                (get_elem?-last registry.kinds kind))
        | inr (existing, old) ↦
            rw (old, register)
              (get-found
                (record {
                  kinds = set_at registry.kinds existing kind;
                  index = index_all registry.index (id_spellings kind) existing;
                })
                id existing kind
                (ground
                  (arith, get-index_all registry.index (id_spellings kind) existing id, spelled))
                (get_elem?-set_at registry.kinds existing kind (inv kind.name existing old)))
      ]
