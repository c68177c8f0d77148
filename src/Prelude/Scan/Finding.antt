-- ===== src/Prelude/Scan/Finding.antt =====
-- Where a pattern is found in a text that is written around it.
use Prim.Native.Nat.{ℕ, suc, ◌+◌, ◌≤◌, ◌<◌}
use Prim.Native.Char.{Char, code, len_utf8}
use Prim.Native.String.{String}
use text.Mathlib.TextLemmas.{nil-append, cons-append}
use mathlib.Core.Path.{◌≡◌, refl, sym, ap, subst}
use mathlib.Core.Bool.{Bool, true, false, not, ◌&&◌}
use mathlib.Core.Option.{none, some}
use mathlib.Core.Logic.{inl, inr}
use native.Mathlib.Omega.{arith}
use fancy_flow_rs.Prelude.Tests.{nat_beq, Option-cases}
use fancy_flow_rs.Prelude.Text.{strip_prefix, ◌<>◌}
use text.Mathlib.TextEquality.{eq_iff}
use text.Mathlib.TextPositions.{eq_refl, len_utf8-pos}
use Prim.Native.String.len.{cons}
use fancy_flow_rs.Prelude.Scan.{chars, byte_len, find, strip_suffix}

-- The text has no character with the number.
abbrev pub free : ℕ → String → Bool
free n String.[] = true
free n (String.◌∷◌ c s) = not (nat_beq (code c) n) && free n s

pub strip_prefix-append : (p s : String) → strip_prefix (p <> s) p ≡ some s
unfolding strip_prefix
strip_prefix-append String.[] s = ap some (nil-append s)
strip_prefix-append (String.◌∷◌ c p) s =
    subst (λ u. strip_prefix u (String.◌∷◌ c p) ≡ some s) (sym (cons-append c p s))
      (ground (arith, strip_prefix-append p s))

pub chars-append : (s t : String) → chars (s <> t) ≡ chars s + chars t
chars-append String.[] t = rw (nil-append t) (omega arith)
chars-append (String.◌∷◌ c s) t = rw (cons-append c s t) (omega (arith, chars-append s t))

pub free-append : (n : ℕ) (s t : String) → free n (s <> t) ≡ (free n s && free n t)
free-append n String.[] t = rw (nil-append t)
free-append n (String.◌∷◌ c s) t = rw (cons-append c s t) (ground (arith, free-append n s t))

free_of_strip_prefix :
    (n : ℕ) (s p : String) {rest : String}
    → strip_prefix s p ≡ some rest
    → free n s ≡ true
    → free n rest ≡ true
unfolding strip_prefix
free_of_strip_prefix n s String.[] e h = ground arith
free_of_strip_prefix n String.[] (String.◌∷◌ c p) e h = absurd (cc)
free_of_strip_prefix n (String.◌∷◌ d s) (String.◌∷◌ c p) e h =
    free_of_strip_prefix n s p (ground arith) (ground arith)

strip_prefix_shortens :
    (s p : String) {rest : String} → strip_prefix s p ≡ some rest → chars rest ≤ chars s
unfolding strip_prefix
strip_prefix_shortens s String.[] e = ground arith
strip_prefix_shortens String.[] (String.◌∷◌ c p) e = absurd (cc)
strip_prefix_shortens (String.◌∷◌ d s) (String.◌∷◌ c p) {rest} e =
    let shorter : chars rest ≤ chars s = strip_prefix_shortens s p (ground arith) in omega arith

module _ (c : Char) (p : String) where
  strip_prefix-cons_append :
      (rest : String) → strip_prefix (String.◌∷◌ c (p <> rest)) (String.◌∷◌ c p) ≡ some rest
  strip_prefix-cons_append rest =
      subst (λ u. strip_prefix u (String.◌∷◌ c p) ≡ some rest) (cons-append c p rest)
        (strip_prefix-append (String.◌∷◌ c p) rest)

  find-here :
      (d : Char) (s : String) {rest : String}
      → strip_prefix (String.◌∷◌ d s) (String.◌∷◌ c p) ≡ some rest
      → find (String.◌∷◌ d s) (String.◌∷◌ c p) ≡ some ("", rest)
  unfolding find
  find-here d s h = rw (h, find)

  find-later :
      (d : Char) (s : String) {before rest : String}
      → nat_beq (code d) (code c) ≡ false
      → find s (String.◌∷◌ c p) ≡ some (before, rest)
      → find (String.◌∷◌ d s) (String.◌∷◌ c p) ≡ some (String.◌∷◌ d before, rest)
  unfolding find strip_prefix
  find-later d s h e = ground arith

  pub find-written :
      (before rest : String)
      → free (code c) before ≡ true
      → find (before <> String.◌∷◌ c p <> rest) (String.◌∷◌ c p) ≡ some (before, rest)
  find-written String.[] rest h =
      rw (nil-append (String.◌∷◌ c p <> rest))
        (rw (cons-append c p rest) (find-here c (p <> rest) (strip_prefix-cons_append rest)))
  find-written (String.◌∷◌ d before) rest h = rw (cons-append d before (String.◌∷◌ c p <> rest)) (
      find-later d (before <> String.◌∷◌ c p <> rest) (ground arith)
        (find-written before rest (ground arith)))

  pub find-free : (s : String) → free (code c) s ≡ true → find s (String.◌∷◌ c p) ≡ none
  unfolding find strip_prefix
  find-free String.[] h = refl
  find-free (String.◌∷◌ d s) h = ground (arith, find-free s)

  pub free_of_find :
      (n : ℕ) (s : String) {before rest : String}
      → find s (String.◌∷◌ c p) ≡ some (before, rest)
      → free n s ≡ true
      → free n rest ≡ true
  unfolding find
  free_of_find n String.[] e h = absurd (cc)
  free_of_find n (String.◌∷◌ d s) {before} {rest} e h =
      elim (Option-cases (strip_prefix (String.◌∷◌ d s) (String.◌∷◌ c p))) [
        | inr (found, here) ↦
            let same : found ≡ rest = ground arith in
            subst (λ t. free n t ≡ true) same
              (free_of_strip_prefix n (String.◌∷◌ d s) (String.◌∷◌ c p) here h)
        | inl later ↦ elim (Option-cases (find s (String.◌∷◌ c p))) [
          | inl nowhere ↦ absurd (ground arith)
          | inr ((b, found), there) ↦
              let same : found ≡ rest = ground arith in
              subst (λ t. free n t ≡ true) same (free_of_find n s there (ground arith))
        ]
      ]

-- What stands behind a pattern that is found is shorter than the text.
pub find_shortens :
    (c : Char) (p s : String) {before rest : String}
    → find s (String.◌∷◌ c p) ≡ some (before, rest)
    → chars rest < chars s
unfolding find strip_prefix
find_shortens c p String.[] e = absurd (cc)
find_shortens c p (String.◌∷◌ d s) {before} {rest} e =
    elim (Option-cases (strip_prefix (String.◌∷◌ d s) (String.◌∷◌ c p))) [
      | inr (found, here) ↦
          let same : found ≡ rest = ground arith in
          let inside : strip_prefix s p ≡ some found = ground arith in
          let shorter : chars found ≤ chars s = strip_prefix_shortens s p inside in
          subst (λ t. chars t < suc (chars s)) same (omega arith)
      | inl later ↦ elim (Option-cases (find s (String.◌∷◌ c p))) [
        | inl nowhere ↦ absurd (ground arith)
        | inr ((b, found), there) ↦
            let same : found ≡ rest = ground arith in
            let shorter : chars found < chars s = find_shortens c p s there in
            subst (λ t. chars t < suc (chars s)) same (omega arith)
      ]
    ]

-- A suffix is taken off a text that does not have its first character.
pub strip_suffix-written :
    (s : String) (c : Char) (p : String)
    → free (code c) s ≡ true
    → strip_suffix (s <> String.◌∷◌ c p) (String.◌∷◌ c p) ≡ some s
unfolding strip_suffix
strip_suffix-written String.[] c p h =
    rw (nil-append (String.◌∷◌ c p), eq_refl (String.◌∷◌ c p), strip_suffix) refl
strip_suffix-written (String.◌∷◌ d s) c p h = rw (cons-append d s (String.◌∷◌ c p)) (
    ground (
      arith,
      strip_suffix-written s c p,
      eq_iff (String.◌∷◌ d (s <> String.◌∷◌ c p)) (String.◌∷◌ c p),
    ))

len_utf8_pos : (c : Char) → 1 ≤ len_utf8 c
len_utf8_pos c = let found = len_utf8-pos c in omega (arith, found.1)

-- Each character takes a byte at least.
pub chars-le-byte_len : (s : String) → chars s ≤ byte_len s
chars-le-byte_len String.[] = omega arith
chars-le-byte_len (String.◌∷◌ c s) =
    let whole : byte_len (String.◌∷◌ c s) ≡ len_utf8 c + byte_len s = cons c s in
    omega (arith, whole, chars-le-byte_len s, len_utf8_pos c)
