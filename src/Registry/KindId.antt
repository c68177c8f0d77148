-- ===== src/Registry/KindId.antt =====
-- registry/kind_id.rs: the spellings of a node kind's id.
use Prim.Native.Char.{code}
use fancy_flow_rs.Prelude.{
  List, [], ◌∷◌, ◌++◌, String, Bool, false, Option, some, none, if◌then◌else◌, nat_beq, ◌<>◌, ◌==◌,
  ◌||◌, strip_prefix, any,
}

abbrev pub namespace : String
namespace = "@particle-academy/"

abbrev pub legacy_namespace : String
legacy_namespace = "@fancy/"

unfoldable pub is_namespaced : String → Bool
is_namespaced String.[] = false
is_namespaced (String.◌∷◌ c s) = nat_beq (code c) b'@'

unfoldable pub canonical : String → String
unfolding is_namespaced
canonical name = if is_namespaced name then name else namespace <> name

-- What stands behind the last `/`, or nothing when there is none (`rfind`).
unfoldable pub after_slash : String → Option String
after_slash String.[] = none
after_slash (String.◌∷◌ c s) = elim (after_slash s) [
  | some rest ↦ some rest
  | none ↦ if nat_beq (code c) b'/' then some s else none
]

unfoldable pub bare : String → String
unfolding is_namespaced after_slash
bare kind_id =
    if is_namespaced kind_id
    then elim (after_slash kind_id) [ some rest ↦ rest | none ↦ kind_id ]
    else kind_id

unfoldable pub builtin_aliases : String → List String
unfolding bare
builtin_aliases name = bare name ∷ (legacy_namespace <> bare name) ∷ []

abbrev is_some_text : Option String → String → Bool
is_some_text (some s) t = s == t
is_some_text none t = false

unfoldable pub matches : String → String → Bool
unfolding strip_prefix
matches kind_id bare_name =
    kind_id == bare_name
    || is_some_text (strip_prefix kind_id namespace) bare_name
    || is_some_text (strip_prefix kind_id legacy_namespace) bare_name

-- `Vec::contains`
unfoldable pub contains : List String → String → Bool
contains l s = any (λ t. t == s) l

-- `dedup_push` of registry/mod.rs
unfoldable pub dedup_push : List String → String → List String
unfolding contains
dedup_push into value = if contains into value then into else into ++ value ∷ []

-- A loop that pushes each item.
unfoldable pub dedup_extend : List String → List String → List String
unfolding dedup_push
dedup_extend into [] = into
dedup_extend into (s ∷ l) = dedup_extend (dedup_push into s) l

unfoldable pub variants : String → List String
unfolding bare dedup_extend
variants kind_id =
    dedup_extend [] (
      kind_id
      ∷ (namespace <> bare kind_id)
      ∷ (legacy_namespace <> bare kind_id)
      ∷ bare kind_id
      ∷ [])
