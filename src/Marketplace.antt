-- ===== src/Marketplace.antt =====
-- marketplace.rs: versions, and ranges of versions.
pub mod Ranges
pub mod Manifest
use Prim.Native.Char.{Char, code}
use fancy_flow_rs.Prelude.{
  ℕ, zero, suc, List, [], ◌∷◌, ◌++◌, String, Bool, true, false, not, Option, some, none,
  if◌then◌else◌, ◌==◌, ◌&&◌, ◌||◌, ◌<>◌, nat_beq, ltb, leb, any, strip_prefix,
}
use fancy_flow_rs.Prelude.Scan.{chars, is_blank, trim, find, split, parse_usize}
use fancy_flow_rs.Schema.Json.{str_of}
use fancy_flow_rs.Platform.{Platform}
use fancy_flow_rs.Registry.KindId.{namespace}
use fancy_flow_rs.Analysis.GraphConnectivity.{ImportIssue, issue, warning_issue, is_error}

abbrev pub is_digit : Char → Bool
is_digit c = leb b'0' (code c) && leb (code c) b'9'

unfoldable pub leading_digits : String → String
leading_digits String.[] = ""
leading_digits (String.◌∷◌ c s) =
    let rest = leading_digits s in if is_digit c then String.◌∷◌ c rest else ""

-- The leading run of digits as a `u64`.
unfoldable pub leading_number : String → Option ℕ
unfolding leading_digits parse_usize
leading_number s = if is_blank (leading_digits s) then none else parse_usize (leading_digits s)

abbrev pub Semver : Type 0
Semver = ℕ × ℕ × ℕ

abbrev or_zero : Option ℕ → ℕ
or_zero (some n) = n
or_zero none = 0

unfoldable pub number_or_zero : List String → ℕ
unfolding leading_number
number_or_zero [] = 0
number_or_zero (part ∷ parts) = or_zero (leading_number part)

abbrev without_v : String → Option String → String
without_v s (some rest) = rest
without_v s none = s

abbrev rest_of : List String → List String
rest_of [] = []
rest_of (part ∷ parts) = parts

-- A version has at least its first two numbers.
unfoldable pub version_of : List String → Option Semver
unfolding leading_number number_or_zero
version_of [] = none
version_of (a ∷ []) = none
version_of (a ∷ b ∷ parts) = elim (leading_number a) [
  | none ↦ none
  | some major ↦ elim (leading_number b) [
    | none ↦ none
    | some minor ↦ some (major, minor, number_or_zero parts)
  ]
]

unfoldable pub parse_version : String → Option Semver
unfolding version_of split strip_prefix
parse_version s = version_of (split (without_v s (strip_prefix s "v")) b'.')

-- The order of tuples.
abbrev pub before : Semver → Semver → Bool
before (a, b, c) (x, y, z) = ltb a x || (nat_beq a x && (ltb b y || (nat_beq b y && ltb c z)))

abbrev pub equal : Semver → Semver → Bool
equal (a, b, c) (x, y, z) = nat_beq a x && nat_beq b y && nat_beq c z

abbrev pub at_least : Semver → Semver → Bool
at_least actual target = not (before actual target)

abbrev or_try : String → Option String → String × String → String × String
or_try operator (some rest) other = (operator, rest)
or_try operator none other = other

unfoldable pub operator_of : String → String × String
unfolding strip_prefix
operator_of clause = or_try ">=" (strip_prefix clause ">=") (
    or_try "<=" (strip_prefix clause "<=") (
      or_try ">" (strip_prefix clause ">") (
        or_try "<" (strip_prefix clause "<") (
          or_try "^" (strip_prefix clause "^") (
            or_try "~" (strip_prefix clause "~")
              (or_try "=" (strip_prefix clause "=") ("=", clause)))))))

-- The target of a clause may leave out all but its first number.
unfoldable pub target_of : List String → Option Semver
unfolding leading_number number_or_zero
target_of [] = none
target_of (a ∷ parts) = elim (leading_number a) [
  | none ↦ none
  | some major ↦ some (major, number_or_zero parts, number_or_zero (rest_of parts))
]

unfoldable pub parse_target : String → Option Semver
unfolding target_of split trim strip_prefix
parse_target rest = target_of (split (without_v (trim rest) (strip_prefix (trim rest) "v")) b'.')

unfoldable pub compares : String → Semver → Semver → Bool
compares operator actual target =
    if operator == ">="
    then at_least actual target
    else if operator == ">"
    then before target actual
    else if operator == "<="
    then not (before target actual)
    else if operator == "<"
    then before actual target
    else if operator == "="
    then equal actual target
    else if operator == "~"
    then at_least actual target && nat_beq actual.0 target.0 && nat_beq actual.1 target.1
    else if operator == "^"
    then (if nat_beq target.0 0
        then at_least actual target && nat_beq actual.0 0 && nat_beq actual.1 target.1
        else at_least actual target && nat_beq actual.0 target.0)
    else false

abbrev pub compares_to : Semver → String → Option Semver → Bool
unfolding compares
compares_to actual operator (some target) = compares operator actual target
compares_to actual operator none = false

unfoldable pub satisfies_clause : Semver → String → Bool
unfolding operator_of parse_target compares trim
satisfies_clause actual clause =
    let (operator, rest) = operator_of (trim clause) in
    compares_to actual operator (parse_target rest)

-- `str::split` at each occurrence of `||`; the rounds do not run out, since each takes a pattern off.
unfoldable pub split_bars : ℕ → String → List String
unfolding find
split_bars zero s = s ∷ []
split_bars (suc fuel) s = elim (find s "||") [
  | none ↦ s ∷ []
  | some (clause, rest) ↦ clause ∷ split_bars fuel rest
]

abbrev pub clauses : String → List String
unfolding split_bars
clauses spec = split_bars (suc (chars spec)) spec

abbrev any_clause : List String → Option Semver → Bool
unfolding satisfies_clause trim
any_clause l (some actual) = any (λ clause. satisfies_clause actual (trim clause)) l
any_clause l none = false

unfoldable pub satisfies_range : String → String → Bool
unfolding trim parse_version clauses any_clause
satisfies_range version spec =
    if trim spec == "*" || is_blank (trim spec)
    then true
    else any_clause (clauses (trim spec)) (parse_version (trim version))
