-- ===== src/Prelude/BTreeMap.antt =====
-- `BTreeMap<String, V>` as an association list with distinct keys. Nothing that is modelled here
-- reads the order of a map's keys.
use Prim.Native.Nat.{ℕ, ◌+◌}
use Prim.Native.String.{String}
use text.Mathlib.Text.{◌==◌}
use text.Mathlib.TextEquality.{eq_iff}
use mathlib.Core.Path.{◌≡◌, refl}
use mathlib.Core.Bool.{Bool, true, false}
use mathlib.Core.Option.{Option, none, some}
use mathlib.Core.List.{List, [], ◌∷◌}
use native.Mathlib.Omega.{arith}
use fancy_flow_rs.Prelude.Tests.{if◌then◌else◌}

abbrev pub BTreeMap {ℓ} : Type ℓ → Type ℓ
BTreeMap V = List (String × V)

module _ {ℓ} {V : Type ℓ} where
  unfoldable pub get : BTreeMap V → String → Option V
  get [] k = none
  get ((j, v) ∷ m) k = if j == k then some v else get m k

  unfoldable pub contains_key : BTreeMap V → String → Bool
  contains_key [] k = false
  contains_key ((j, v) ∷ m) k = if j == k then true else contains_key m k

  unfoldable pub insert : BTreeMap V → String → V → BTreeMap V
  insert [] k v = (k, v) ∷ []
  insert ((j, w) ∷ m) k v = if j == k then (k, v) ∷ m else (j, w) ∷ insert m k v

  unfoldable pub remove : BTreeMap V → String → BTreeMap V
  remove [] k = []
  remove ((j, w) ∷ m) k = let rest = remove m k in if j == k then rest else (j, w) ∷ rest

  -- `.values().filter(p).count()`
  unfoldable pub count_values : (V → Bool) → BTreeMap V → ℕ
  count_values p [] = 0
  count_values p ((k, v) ∷ m) = (if p v then 1 else 0) + count_values p m

  pub get-insert :
      (m : BTreeMap V) (k : String) (v : V) (j : String)
      → get (insert m k v) j ≡ (if k == j then some v else get m j)
  unfolding get insert
  get-insert [] k v j = refl
  get-insert ((i, w) ∷ m) k v j =
      ground (arith, eq_iff k j, eq_iff i k, eq_iff i j, get-insert m k v j)

  pub get-remove :
      (m : BTreeMap V) (k j : String) → get (remove m k) j ≡ (if k == j then none else get m j)
  unfolding get remove
  get-remove [] k j = ground (arith, eq_iff k j)
  get-remove ((i, w) ∷ m) k j = ground (arith, eq_iff k j, eq_iff i k, eq_iff i j, get-remove m k j)

  pub contains_key-get :
      (m : BTreeMap V) (k : String)
      → contains_key m k ≡ elim (get m k) [ some _ ↦ true | none ↦ false ]
  unfolding get contains_key
  contains_key-get [] k = refl
  contains_key-get ((i, w) ∷ m) k = ground (arith, contains_key-get m k)

  pub get_of_contains_key-false :
      (m : BTreeMap V) (k : String) → contains_key m k ≡ false → get m k ≡ none
  get_of_contains_key-false m k h = ground (arith, contains_key-get m k)

  pub contains_key_of_get :
      (m : BTreeMap V) (k : String) {v : V} → get m k ≡ some v → contains_key m k ≡ true
  contains_key_of_get m k h = ground (arith, contains_key-get m k)

  -- The keys are distinct.
  abbrev pub IsMap : BTreeMap V → Type 0
  IsMap [] = Unit
  IsMap ((k, v) ∷ m) = (contains_key m k ≡ false) × IsMap m

  pub contains_key-insert :
      (m : BTreeMap V) (k : String) (v : V) (j : String)
      → contains_key (insert m k v) j ≡ (if k == j then true else contains_key m j)
  unfolding contains_key insert
  contains_key-insert [] k v j = refl
  contains_key-insert ((i, w) ∷ m) k v j =
      ground (arith, eq_iff k j, eq_iff i k, eq_iff i j, contains_key-insert m k v j)

  pub insert-IsMap : (m : BTreeMap V) (k : String) (v : V) → IsMap m → IsMap (insert m k v)
  unfolding insert contains_key
  insert-IsMap [] k v h = (refl, tt)
  insert-IsMap ((i, w) ∷ m) k v h =
      ground (arith, eq_iff i k, insert-IsMap m k v h.1, contains_key-insert m k v i, eq_iff k i)
