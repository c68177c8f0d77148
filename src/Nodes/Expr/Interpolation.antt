-- ===== src/Nodes/Expr/Interpolation.antt =====
-- A template that is written from literal texts and references.
use fancy_flow_rs.Prelude.{
  ℕ, zero, suc, ◌<◌, List, [], ◌∷◌, String, true, none, ◌||◌, ◌<>◌, ◌≡◌, refl, ap, arith, inl, inr,
  Option-cases,
}
use fancy_flow_rs.Prelude.Scan.{chars, find}
use fancy_flow_rs.Prelude.Scan.Finding.{
  free, chars-append, find-written, find-free, free_of_find, find_shortens,
}
use fancy_flow_rs.Platform.{Platform}
use fancy_flow_rs.Nodes.Expr.{text, resolve_path, interpolate_from, interpolate}

-- Each pair is a literal text and the path of the reference behind it; the text is what follows.
unfoldable pub written : List (String × String) → String → String
written [] rest = rest
written ((literal, path) ∷ l) rest = literal <> "{{" <> path <> "}}" <> written l rest

-- No opening brace in a literal text, and no closing one in a path.
abbrev pub IsPlain : List (String × String) → Type 0
IsPlain [] = Unit
IsPlain ((literal, path) ∷ l) = (free b'{' literal ≡ true) × (free b'}' path ≡ true) × IsPlain l

shorter :
    (literal path behind : String) (fuel : ℕ)
    → chars (literal <> "{{" <> path <> "}}" <> behind) < suc fuel
    → chars behind < fuel
shorter literal path behind fuel h = omega (
  arith,
  chars-append literal ("{{" <> path <> "}}" <> behind),
  chars-append "{{" (path <> "}}" <> behind),
  chars-append path ("}}" <> behind),
  chars-append "}}" behind,
)

module _ ⦃P : Platform⦄ where
  open P use {Value}

  unfoldable pub filled : List (String × String) → String → Value → String
  filled [] rest context = rest
  filled ((literal, path) ∷ l) rest context =
      literal <> text (resolve_path path context) <> filled l rest context

  -- More rounds than characters all give the same: the rounds do not run out.
  pub interpolate_from_enough :
      (context : Value) (n m : ℕ) (s : String)
      → chars s < n
      → chars s < m
      → interpolate_from n s context ≡ interpolate_from m s context
  unfolding interpolate_from
  interpolate_from_enough context zero m s h h' = absurd (omega arith)
  interpolate_from_enough context (suc n) zero s h h' = absurd (omega arith)
  interpolate_from_enough context (suc n) (suc m) s h h' = elim (Option-cases (find s "{{")) [
    | inl absent ↦ rw (absent, interpolate_from) refl
    | inr ((before, opened), found) ↦ elim (Option-cases (find opened "}}")) [
      | inl unclosed ↦ rw (found, unclosed, interpolate_from) refl
      | inr ((path, behind), closed) ↦
          let short = find_shortens "{" "{" s found in
          let shorter = find_shortens "}" "}" opened closed in
          rw (found, closed, interpolate_from)
            (ap (λ t. before <> text (resolve_path path context) <> t)
              (interpolate_from_enough context n m behind (omega arith) (omega arith)))
    ]
  ]

  module _ (context : Value) (rest : String)
      (open_ended : (free b'{' rest || free b'}' rest) ≡ true) where
    interpolate_from-rest : (fuel : ℕ) → interpolate_from fuel rest context ≡ rest
    unfolding interpolate_from
    interpolate_from-rest zero = refl
    interpolate_from-rest (suc fuel) = elim (Option-cases (find rest "{{")) [
      | inl absent ↦ rw (absent, interpolate_from) refl
      | inr ((before, opened), found) ↦
          let closed : find opened "}}" ≡ none =
            find-free "}" "}" opened
              (free_of_find "{" "{" b'}' rest found (ground (arith, find-free "{" "{" rest))) in
          rw (found, closed, interpolate_from) refl
    ]

    interpolate_from-written :
        (fuel : ℕ) (l : List (String × String))
        → IsPlain l
        → chars (written l rest) < fuel
        → interpolate_from fuel (written l rest) context ≡ filled l rest context
    unfolding interpolate_from written filled
    interpolate_from-written fuel [] plain enough = interpolate_from-rest fuel
    interpolate_from-written zero ((literal, path) ∷ l) plain enough = absurd (omega arith)
    interpolate_from-written (suc fuel) ((literal, path) ∷ l) (a, b, plain) enough =
        let opens = find-written "{" "{" literal (path <> "}}" <> written l rest) a in
        let closes = find-written "}" "}" path (written l rest) b in
        rw (opens, closes, interpolate_from)
          (ap (λ t. literal <> text (resolve_path path context) <> t)
            (interpolate_from-written fuel l plain
              (shorter literal path (written l rest) fuel enough)))

  -- Interpolating a text that is written from literal texts without an opening brace, references whose
  -- paths have no closing brace, and an end without opening braces or without closing braces, gives the
  -- same text with each reference replaced by the text of the value that its path resolves to, and keeps
  -- the end as it is, also where that opens a reference and never closes one.
  pub interpolate-written :
      (l : List (String × String)) (rest : String) (context : Value)
      → IsPlain l
      → (free b'{' rest || free b'}' rest) ≡ true
      → interpolate (written l rest) context ≡ filled l rest context
  unfolding interpolate
  interpolate-written l rest context plain open_ended =
      interpolate_from-written context rest open_ended (suc (chars (written l rest))) l plain
        (omega arith)
