-- ===== src/Nodes/Stores/Memory.antt =====
-- nodes/support/clients.rs: `MemoryKeyValueStore`, as its entries in the order of their keys.
use Prim.Native.Char.{code}
use fancy_flow_rs.Prelude.{
  List, [], ◌∷◌, String, Bool, true, false, Option, some, none, if◌then◌else◌, ◌==◌, ◌≡◌, refl, ltb,
  nat_beq, arith, eq_iff,
}

-- `Ord` of `str`: by the characters from the front
unfoldable pub text_before : String → String → Bool
text_before s String.[] = false
text_before String.[] (String.◌∷◌ d t) = true
text_before (String.◌∷◌ c s) (String.◌∷◌ d t) =
    let rest = text_before s t in if nat_beq (code c) (code d) then rest else ltb (code c) (code d)

module _ {ℓ} {V : Type ℓ} where
  unfoldable pub get : List (String × V) → String → Option V
  get [] k = none
  get ((j, v) ∷ entries) k = let rest = get entries k in if j == k then some v else rest

  unfoldable pub set : List (String × V) → String → V → List (String × V)
  unfolding text_before
  set [] k v = (k, v) ∷ []
  set ((j, w) ∷ entries) k v =
      let rest = set entries k v in
      if j == k
      then (k, v) ∷ entries
      else if text_before k j
      then (k, v) ∷ (j, w) ∷ entries
      else (j, w) ∷ rest

  unfoldable pub delete : List (String × V) → String → List (String × V)
  delete [] k = []
  delete ((j, w) ∷ entries) k =
      let rest = delete entries k in if j == k then rest else (j, w) ∷ rest

  pub get-set :
      (m : List (String × V)) (k : String) (v : V) (j : String)
      → get (set m k v) j ≡ (if k == j then some v else get m j)
  unfolding get set
  get-set [] k v j = refl
  get-set ((i, w) ∷ m) k v j = ground (arith, eq_iff k j, eq_iff i k, eq_iff i j, get-set m k v j)

  pub get-delete :
      (m : List (String × V)) (k j : String)
      → get (delete m k) j ≡ (if k == j then none else get m j)
  unfolding get delete
  get-delete [] k j = ground (arith, eq_iff k j)
  get-delete ((i, w) ∷ m) k j = ground (arith, eq_iff k j, eq_iff i k, eq_iff i j, get-delete m k j)
