-- ===== src/Marketplace/Ranges.antt =====
-- A range of versions as intervals.
use fancy_flow_rs.Prelude.{
  ℕ, zero, suc, ◌<◌, Option-cases, List, [], ◌∷◌, String, Bool, true, false, not, Option, some,
  none, if◌then◌else◌, ◌==◌, ◌≡◌, refl, ap, ap₂, inl, inr, Bool-cases, ◌&&◌, ◌||◌, nat_beq, arith,
  any,
}
use fancy_flow_rs.Prelude.Scan.{chars, find, is_blank, trim}
use fancy_flow_rs.Prelude.Scan.Finding.{find_shortens}
use fancy_flow_rs.Marketplace.{
  Semver, parse_version, before, at_least, equal, operator_of, parse_target, compares, compares_to,
  satisfies_clause, split_bars, clauses, satisfies_range,
}

-- More rounds than characters all give the same clauses.
pub split_bars_enough :
    (n m : ℕ) (s : String) → chars s < n → chars s < m → split_bars n s ≡ split_bars m s
unfolding split_bars
split_bars_enough zero m s h h' = absurd (omega arith)
split_bars_enough (suc n) zero s h h' = absurd (omega arith)
split_bars_enough (suc n) (suc m) s h h' = elim (Option-cases (find s "||")) [
  | inl absent ↦ rw (absent, split_bars) refl
  | inr ((clause, rest), found) ↦
      let short = find_shortens "|" "|" s found in
      rw (found, split_bars)
        (ap (λ l. clause ∷ l) (split_bars_enough n m rest (omega arith) (omega arith)))
]

-- The versions from the first one on, and before the second one where there is one.
pub record Interval : Type 0 where
  pub from : Semver
  pub until : Option Semver

abbrev ends_after : Semver → Option Semver → Bool
ends_after v (some end) = before v end
ends_after v none = true

abbrev pub within : Semver → Interval → Bool
within v i = not (before v i.from) && ends_after v i.until

abbrev next_patch : Semver → Semver
next_patch (a, b, c) = (a, b, suc c)

abbrev next_minor : Semver → Semver
next_minor (a, b, c) = (a, suc b, 0)

abbrev next_major : Semver → Semver
next_major (a, b, c) = (suc a, 0, 0)

abbrev first_version : Semver
first_version = (0, 0, 0)

-- Below 1.0.0 a change of the second number is breaking.
abbrev breaking : Semver → Semver
breaking target = if nat_beq target.0 0 then next_minor target else next_major target

-- The interval of an operator and its target.
abbrev pub interval : String → Semver → Option Interval
interval operator target =
    if operator == ">="
    then some (record { from = target; until = none })
    else if operator == ">"
    then some (record { from = next_patch target; until = none })
    else if operator == "<="
    then some (record { from = first_version; until = some (next_patch target) })
    else if operator == "<"
    then some (record { from = first_version; until = some target })
    else if operator == "="
    then some (record { from = target; until = some (next_patch target) })
    else if operator == "~"
    then some (record { from = target; until = some (next_minor target) })
    else if operator == "^"
    then some (record { from = target; until = some (breaking target) })
    else none

abbrev pub within_some : Semver → Option Interval → Bool
within_some v (some i) = within v i
within_some v none = false

abbrev interval_to : String → Option Semver → Option Interval
interval_to operator (some target) = interval operator target
interval_to operator none = none

-- The interval that a clause of a range stands for, where it has a version.
abbrev pub clause_interval : String → Option Interval
unfolding operator_of parse_target
clause_interval clause =
    let (operator, rest) = operator_of (trim clause) in interval_to operator (parse_target rest)

starting : (v t : Semver) → at_least v t ≡ within v (record { from = t; until = none })
starting (a, b, c) (x, y, z) = ground arith

above : (v t : Semver) → before t v ≡ within v (record { from = next_patch t; until = none })
above (a, b, c) (x, y, z) = ground arith

at_most :
    (v t : Semver)
    → not (before t v) ≡ within v (record { from = first_version; until = some (next_patch t) })
at_most (a, b, c) (x, y, z) = ground arith

below : (v t : Semver) → before v t ≡ within v (record { from = first_version; until = some t })
below (a, b, c) (x, y, z) = ground arith

exactly : (v t : Semver) → equal v t ≡ within v (record { from = t; until = some (next_patch t) })
exactly (a, b, c) (x, y, z) = ground arith

tilde :
    (v t : Semver)
    → (at_least v t && nat_beq v.0 t.0 && nat_beq v.1 t.1)
      ≡ within v (record { from = t; until = some (next_minor t) })
tilde (a, b, c) (x, y, z) = ground arith

caret :
    (v t : Semver)
    → (at_least v t && nat_beq v.0 t.0)
      ≡ within v (record { from = t; until = some (next_major t) })
caret (a, b, c) (x, y, z) = ground arith

caret_breaking :
    (v t : Semver)
    → (if nat_beq t.0 0
        then at_least v t && nat_beq v.0 0 && nat_beq v.1 t.1
        else at_least v t && nat_beq v.0 t.0)
      ≡ within v (record { from = t; until = some (breaking t) })
caret_breaking v (zero, y, z) = tilde v (zero, y, z)
caret_breaking v (suc x, y, z) =
    let nonzero : nat_beq (suc x) 0 ≡ false = ground arith in rw nonzero (caret v (suc x, y, z))

compares-within :
    (operator : String) (v t : Semver) → compares operator v t ≡ within_some v (interval operator t)
unfolding compares
compares-within operator v t = elim (Bool-cases (operator == ">=")) [
  | inl e ↦ rw e (starting v t)
  | inr e ↦ elim (Bool-cases (operator == ">")) [
    | inl e1 ↦ rw e (rw e1 (above v t))
    | inr e1 ↦ elim (Bool-cases (operator == "<=")) [
      | inl e2 ↦ rw e (rw e1 (rw e2 (at_most v t)))
      | inr e2 ↦ elim (Bool-cases (operator == "<")) [
        | inl e3 ↦ rw e (rw e1 (rw e2 (rw e3 (below v t))))
        | inr e3 ↦ elim (Bool-cases (operator == "=")) [
          | inl e4 ↦ rw e (rw e1 (rw e2 (rw e3 (rw e4 (exactly v t)))))
          | inr e4 ↦ elim (Bool-cases (operator == "~")) [
            | inl e5 ↦ rw e (rw e1 (rw e2 (rw e3 (rw e4 (rw e5 (tilde v t))))))
            | inr e5 ↦ elim (Bool-cases (operator == "^")) [
              | inl e6 ↦ rw e (rw e1 (rw e2 (rw e3 (rw e4 (rw e5 (rw e6 (caret_breaking v t)))))))
              | inr e6 ↦ rw e (rw e1 (rw e2 (rw e3 (rw e4 (rw e5 (rw e6 refl))))))
            ]
          ]
        ]
      ]
    ]
  ]
]

satisfies_clause-within :
    (v : Semver) (clause : String)
    → satisfies_clause v clause ≡ within_some v (clause_interval clause)
unfolding satisfies_clause
satisfies_clause-within v clause =
    by_target (operator_of (trim clause)).0 (parse_target (operator_of (trim clause)).1)
  where
    by_target :
        (operator : String) (target : Option Semver)
        → compares_to v operator target ≡ within_some v (interval_to operator target)
    by_target operator (some target) = compares-within operator v target
    by_target operator none = refl

any-within :
    (v : Semver) (l : List String)
    → any (λ clause. satisfies_clause v (trim clause)) l
      ≡ any (λ clause. within_some v (clause_interval (trim clause))) l
any-within v [] = refl
any-within v (clause ∷ l) = ap₂ (◌||◌) (satisfies_clause-within v (trim clause)) (any-within v l)

-- A version satisfies a range that is not blank and no star exactly where it lies in the interval of
-- one of the clauses: from the target or the version behind it, and up to the target, the version
-- behind it, or the next version that counts as breaking, which is the next second number below 1.0.0.
pub satisfies_range-within :
    (version spec : String) (actual : Semver)
    → parse_version (trim version) ≡ some actual
    → (trim spec == "*" || is_blank (trim spec)) ≡ false
    → satisfies_range version spec
      ≡ any (λ clause. within_some actual (clause_interval (trim clause))) (clauses (trim spec))
unfolding satisfies_range
satisfies_range-within version spec actual parsed proper =
    rw proper (rw parsed (any-within actual (clauses (trim spec))))
