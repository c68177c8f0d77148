-- ===== src/Marketplace/Manifest.antt =====
-- marketplace.rs: the manifests of packages of nodes.
use Prim.Native.Char.{Char, code}
use fancy_flow_rs.Prelude.{
  List, [], ◌∷◌, ◌++◌, String, Bool, true, false, not, Option, some, none, if◌then◌else◌, ◌&&◌,
  ◌||◌, ◌<>◌, nat_beq, leb, any, strip_prefix,
}
use fancy_flow_rs.Prelude.Scan.{is_blank, trim, find}
use fancy_flow_rs.Schema.Json.{str_of}
use fancy_flow_rs.Platform.{Platform}
use fancy_flow_rs.Registry.KindId.{namespace}
use fancy_flow_rs.Analysis.GraphConnectivity.{ImportIssue, issue, warning_issue, is_error}
use fancy_flow_rs.Marketplace.{is_digit, Semver, parse_version}

abbrev is_alphanumeric : Char → Bool
is_alphanumeric c =
    is_digit c
    || (leb b'a' (code c) && leb (code c) b'z')
    || (leb b'A' (code c) && leb (code c) b'Z')

unfoldable pub all_segment : String → Bool
all_segment String.[] = true
all_segment (String.◌∷◌ c s) =
    (is_alphanumeric c || nat_beq (code c) b'.' || nat_beq (code c) b'_' || nat_beq (code c) b'-')
    && all_segment s

unfoldable pub is_segment : String → Bool
unfolding all_segment
is_segment String.[] = false
is_segment (String.◌∷◌ c s) = is_alphanumeric c && all_segment (String.◌∷◌ c s)

abbrev both_segments : Option (String × String) → Bool
unfolding is_segment
both_segments (some (scope, name)) = is_segment scope && is_segment name
both_segments none = false

abbrev scoped : Option String → Bool
unfolding find both_segments
scoped (some rest) = both_segments (find rest "/")
scoped none = false

unfoldable pub is_namespaced_kind : String → Bool
unfolding strip_prefix scoped
is_namespaced_kind kind = scoped (strip_prefix kind "@")

abbrev starts_with : Option String → Bool
starts_with (some rest) = true
starts_with none = false

unfoldable pub kind_issues : Option String → List ImportIssue
unfolding trim is_namespaced_kind strip_prefix
kind_issues none = issue "kind: Required - the canonical kind id this package provides." ∷ []
kind_issues (some kind) =
    if is_blank (trim kind)
    then issue "kind: Required - the canonical kind id this package provides." ∷ []
    else if not (is_namespaced_kind kind)
    then issue (
        "kind: \"" <> kind
        <> "\" must be namespaced as @scope/name - a bare id makes stored graphs ambiguous, and that is unfixable once documents carry it.")
      ∷ []
    else if starts_with (strip_prefix kind namespace)
    then warning_issue (
        "kind: " <> namespace
        <> "* is reserved for first-party nodes; the registry will reject this unless the package is first-party.")
      ∷ []
    else []

abbrev pub version_in : Option String → Option Semver
unfolding parse_version
version_in (some s) = parse_version s
version_in none = none

unfoldable pub version_issues : Option Semver → List ImportIssue
version_issues (some v) = []
version_issues none = issue "version: Required - a MAJOR.MINOR.PATCH version." ∷ []

module _ ⦃P : Platform⦄ where
  open P use {Value, Map, as_str, as_array, as_object, get, get_in}

  unfoldable pub aliases_issues : Option Value → List ImportIssue
  aliases_issues none = []
  aliases_issues (some v) = elim (as_array v) [
    | some l ↦ []
    | none ↦ issue "aliases: Must be a list of ids." ∷ []
  ]

  unfoldable pub validate_manifest : Value → List ImportIssue
  unfolding kind_issues version_in version_issues aliases_issues
  validate_manifest manifest = elim (as_object manifest) [
    | none ↦ issue "Manifest is not an object." ∷ []
    | some m ↦
        kind_issues (str_of (get m "kind"))
        ++ (version_issues (version_in (str_of (get m "version")))
            ++ aliases_issues (get m "aliases"))
  ]

  unfoldable pub canonical_kind : Value → Option String
  canonical_kind manifest = str_of (get_in manifest "kind")

unfoldable pub manifest_is_usable : List ImportIssue → Bool
manifest_is_usable issues = not (any is_error issues)
