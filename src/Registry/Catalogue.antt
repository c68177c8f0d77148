-- ===== src/Registry/Catalogue.antt =====
-- registry/mod.rs: the catalogue of node kinds, and the index from each spelling of an id.
pub mod Lookup
use fancy_flow_rs.Prelude.{
  zero, suc, ℕ, List, [], ◌∷◌, ◌++◌, String, Option, some, none, get_elem?, length,
}
use fancy_flow_rs.Prelude.BTreeMap
use fancy_flow_rs.Prelude.BTreeMap.{BTreeMap}
use fancy_flow_rs.Platform.{Platform}
use fancy_flow_rs.Registry.Kind.{NodeKind, ids}
use fancy_flow_rs.Registry.KindId.{dedup_extend, variants}

-- Every spelling of every id.
unfoldable pub spell_all : List String → List String → List String
unfolding dedup_extend variants
spell_all out [] = out
spell_all out (id ∷ l) = spell_all (dedup_extend out (variants id)) l

-- The loop that points each spelling at the kind.
unfoldable pub index_all : BTreeMap ℕ → List String → ℕ → BTreeMap ℕ
unfolding BTreeMap.insert
index_all index [] at = index
index_all index (id ∷ l) at = index_all (BTreeMap.insert index id at) l at

-- The first of the spellings that the index knows.
unfoldable pub find_index : BTreeMap ℕ → List String → Option ℕ
unfolding BTreeMap.get
find_index index [] = none
find_index index (id ∷ l) = elim (BTreeMap.get index id) [
  | some at ↦ some at
  | none ↦ find_index index l
]

module _ ⦃P : Platform⦄ where
  pub record NodeKindRegistry : Type 0 where
    pub kinds : List NodeKind
    pub index : BTreeMap ℕ

  abbrev pub empty_registry : NodeKindRegistry
  empty_registry = record { kinds = []; index = [] }

  -- A write at an index.
  unfoldable pub set_at : List NodeKind → ℕ → NodeKind → List NodeKind
  set_at [] i kind = []
  set_at (x ∷ l) zero kind = kind ∷ l
  set_at (x ∷ l) (suc i) kind = x ∷ set_at l i kind

  unfoldable pub id_spellings : NodeKind → List String
  unfolding spell_all ids
  id_spellings kind = spell_all [] (ids kind)

  unfoldable pub register : NodeKindRegistry → NodeKind → NodeKindRegistry
  unfolding BTreeMap.get set_at id_spellings index_all
  register registry kind = elim (BTreeMap.get registry.index kind.name) [
    | some existing ↦ record {
      kinds = set_at registry.kinds existing kind;
      index = index_all registry.index (id_spellings kind) existing;
    }
    | none ↦ record {
      kinds = registry.kinds ++ kind ∷ [];
      index = index_all registry.index (id_spellings kind) (length registry.kinds);
    }
  ]

  -- `self.kinds[at]`, where the source would panic out of range.
  abbrev kind_at : NodeKindRegistry → Option ℕ → Option NodeKind
  kind_at registry (some at) = get_elem? registry.kinds at
  kind_at registry none = none

  unfoldable pub get : NodeKindRegistry → String → Option NodeKind
  unfolding BTreeMap.get find_index variants
  get registry kind_id = elim (BTreeMap.get registry.index kind_id) [
    | some at ↦ get_elem? registry.kinds at
    | none ↦ kind_at registry (find_index registry.index (variants kind_id))
  ]

  unfoldable pub ids_for : NodeKindRegistry → String → List String
  unfolding get ids
  ids_for registry kind_id = elim (get registry kind_id) [ some kind ↦ ids kind | none ↦ [] ]
