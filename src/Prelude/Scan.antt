-- ===== src/Prelude/Scan.antt =====
-- The methods of `str` by which templates and ids are scanned.
pub mod Finding
use Prim.Native.Nat.{ℕ, zero, suc, ◌+◌, ◌-◌, ◌*◌, ◌≤◌, ◌<◌, ◌^◌}
use Prim.Native.Char.{Char, code}
use Prim.Native.String.{String, len}
use mathlib.Core.Path.{◌≡◌, refl, ap}
use mathlib.Core.Bool.{Bool, true, false, ◌&&◌, ◌||◌}
use mathlib.Core.Option.{Option, none, some}
use mathlib.Core.List.{List, [], ◌∷◌}
use text.Mathlib.Text.{◌==◌}
use native.Mathlib.Omega.{arith}
use fancy_flow_rs.Prelude.Tests.{if◌then◌else◌, nat_beq, ltb, leb, Bool-cases}
use fancy_flow_rs.Prelude.Text.{strip_prefix, ◌<>◌}

-- The number of characters.
abbrev pub chars : String → ℕ
chars String.[] = 0
chars (String.◌∷◌ c s) = suc (chars s)

-- `str::len`, in bytes of UTF-8
abbrev pub byte_len : String → ℕ
byte_len s = len s

abbrev pub is_blank : String → Bool
is_blank String.[] = true
is_blank (String.◌∷◌ c s) = false

-- `char::is_whitespace`, the property White_Space of Unicode
unfoldable pub is_whitespace : ℕ → Bool
is_whitespace n =
    (leb 9 n && leb n 13)
    || nat_beq n 0x20
    || nat_beq n 0x85
    || nat_beq n 0xa0
    || nat_beq n 0x1680
    || (leb 0x2000 n && leb n 0x200a)
    || nat_beq n 0x2028
    || nat_beq n 0x2029
    || nat_beq n 0x202f
    || nat_beq n 0x205f
    || nat_beq n 0x3000

unfoldable pub trim_start_matches : (ℕ → Bool) → String → String
trim_start_matches p String.[] = ""
trim_start_matches p (String.◌∷◌ c s) =
    if p (code c) then trim_start_matches p s else String.◌∷◌ c s

unfoldable pub trim_end_matches : (ℕ → Bool) → String → String
trim_end_matches p String.[] = ""
trim_end_matches p (String.◌∷◌ c s) =
    let rest = trim_end_matches p s in if is_blank rest && p (code c) then "" else String.◌∷◌ c rest

unfoldable pub trim_matches : (ℕ → Bool) → String → String
unfolding trim_start_matches trim_end_matches
trim_matches p s = trim_end_matches p (trim_start_matches p s)

unfoldable pub trim : String → String
unfolding trim_matches is_whitespace
trim s = trim_matches is_whitespace s

abbrev push_front : Char → Option (String × String) → Option (String × String)
push_front c (some (before, rest)) = some (String.◌∷◌ c before, rest)
push_front c none = none

-- `str::find`, with the texts before and behind the place that it finds
unfoldable pub find : String → String → Option (String × String)
unfolding strip_prefix
find String.[] pattern = elim (strip_prefix "" pattern) [
  | some rest ↦ some ("", rest)
  | none ↦ none
]
find (String.◌∷◌ c s) pattern =
    let later = find s pattern in
    elim (strip_prefix (String.◌∷◌ c s) pattern) [
      | some rest ↦ some ("", rest)
      | none ↦ push_front c later
    ]

-- `str::contains`
unfoldable pub contains_text : String → String → Bool
unfolding find
contains_text s pattern = elim (find s pattern) [ some _ ↦ true | none ↦ false ]

abbrev push_char : Char → Option String → Option String
push_char c (some s) = some (String.◌∷◌ c s)
push_char c none = none

-- `str::strip_suffix`
unfoldable pub strip_suffix : String → String → Option String
strip_suffix String.[] suffix = if is_blank suffix then some "" else none
strip_suffix (String.◌∷◌ c s) suffix =
    let later = strip_suffix s suffix in
    if String.◌∷◌ c s == suffix then some "" else push_char c later

abbrev split_off : Bool → Char → List String → List String
split_off at_separator c [] = []
split_off true c (word ∷ words) = "" ∷ word ∷ words
split_off false c (word ∷ words) = String.◌∷◌ c word ∷ words

-- `str::split` at each occurrence of a character
unfoldable pub split : String → ℕ → List String
split String.[] separator = "" ∷ []
split (String.◌∷◌ c s) separator = split_off (nat_beq (code c) separator) c (split s separator)

-- The character of the second text that stands where the first one has `c`.
abbrev translate : String → String → Char → Char
translate String.[] to c = c
translate (String.◌∷◌ a from) String.[] c = c
translate (String.◌∷◌ a from) (String.◌∷◌ b to) c =
    if nat_beq (code a) (code c) then b else translate from to c

abbrev upper : String
upper = "ABCDEFGHIJKLMNOPQRSTUVWXYZ"

abbrev lower : String
lower = "abcdefghijklmnopqrstuvwxyz"

unfoldable pub to_ascii_lowercase : String → String
to_ascii_lowercase String.[] = ""
to_ascii_lowercase (String.◌∷◌ c s) = String.◌∷◌ (translate upper lower c) (to_ascii_lowercase s)

unfoldable pub to_ascii_uppercase : String → String
to_ascii_uppercase String.[] = ""
to_ascii_uppercase (String.◌∷◌ c s) = String.◌∷◌ (translate lower upper c) (to_ascii_uppercase s)

digits_value : ℕ → String → Option ℕ
digits_value n String.[] = some n
digits_value n (String.◌∷◌ c s) =
    let rest = digits_value (n * 10 + (code c - b'0')) s in
    if leb b'0' (code c) && leb (code c) b'9' then rest else none

abbrev in_range : Option ℕ → Option ℕ
in_range (some n) = if ltb n (2 ^ 64) then some n else none
in_range none = none

abbrev unsigned : String → Option ℕ
unfolding digits_value
unsigned String.[] = none
unsigned (String.◌∷◌ c s) = in_range (digits_value 0 (String.◌∷◌ c s))

-- `str::parse::<usize>`, on a target of 64 bits: one sign `+` is taken.
unfoldable pub parse_usize : String → Option ℕ
unfolding digits_value
parse_usize String.[] = none
parse_usize (String.◌∷◌ c s) =
    if nat_beq (code c) b'+' then unsigned s else unsigned (String.◌∷◌ c s)

-- JavaScript's `trim`: white space, and the byte order mark.
unfoldable pub js_trim : String → String
unfolding trim_matches is_whitespace
js_trim s = trim_matches (λ n. is_whitespace n || nat_beq n 0xfeff) s
