-- ===== src/Analysis/GraphPolicy/Nesting.antt =====
-- The walk over a configuration ends, and finds a problem exactly where there is one.
use fancy_flow_rs.Prelude.{
  ℕ, zero, suc, ◌+◌, ◌≤◌, List, [], ◌∷◌, String, Bool, true, false, not, Option, some, none, ◌&&◌,
  ◌≡◌, ◌∙◌, refl, arith, ltb, all, inl, inr, Option-cases, Bool-cases,
}
use fancy_flow_rs.Prelude.Scan.{byte_len}
use fancy_flow_rs.Platform.{Platform, View}
use fancy_flow_rs.Analysis.GraphPolicy.{GraphPolicy}
use fancy_flow_rs.Analysis.GraphPolicy.Inspection.{
  children, text_problem, value_problem, nesting_message, push_children, inspect_stack, total,
  tally, levels_left, inspect_value,
}

module _ ⦃P : Platform⦄ where
  open P use {Value, view}

  abbrev pub short_text : GraphPolicy → View Value P.Map P.Float → Bool
  short_text policy (View.string s) = not (ltb policy.max_string_length (byte_len s))
  short_text policy _ = true

  -- The value is no text that is longer than the policy permits.
  unfoldable pub is_short : GraphPolicy → Value → Bool
  is_short policy value = short_text policy (view value)

  -- The value nests within the levels, and every text in it is short: by recursion on the value.
  unfoldable pub fits : GraphPolicy → ℕ → Value → Bool
  fits policy zero value = false
  fits policy (suc levels) value =
      is_short policy value && all (fits policy levels) (children value)

  abbrev pub is_clean : Option String → Bool
  is_clean (some problem) = false
  is_clean none = true

  module _ (policy : GraphPolicy) where
    -- The rounds that a stack needs, and whether everything on it fits.
    work : List (Value × ℕ) → ℕ
    work [] = 0
    work ((v, depth) ∷ stack) = tally (levels_left policy depth) v + work stack

    clean : List (Value × ℕ) → Bool
    clean [] = true
    clean ((v, depth) ∷ stack) = fits policy (levels_left policy depth) v && clean stack

    work-push_children :
        (stack : List (Value × ℕ)) (l : List Value) (depth : ℕ)
        → work (push_children stack l depth)
          ≡ work stack + total (tally (levels_left policy depth)) l
    unfolding work push_children
    work-push_children stack [] depth = omega arith
    work-push_children stack (v ∷ l) depth =
        omega (arith, work-push_children ((v, depth) ∷ stack) l depth)

    clean-push_children :
        (stack : List (Value × ℕ)) (l : List Value) (depth : ℕ)
        → clean (push_children stack l depth)
          ≡ (clean stack && all (fits policy (levels_left policy depth)) l)
    unfolding clean push_children
    clean-push_children stack [] depth = ground arith
    clean-push_children stack (v ∷ l) depth =
        ground (arith, clean-push_children ((v, depth) ∷ stack) l depth)

    -- Below the cap a value has a problem of its own exactly where it is not short.
    text_problem-short :
        (w : View Value P.Map P.Float) → is_clean (text_problem policy w) ≡ short_text policy w
    text_problem-short View.null = refl
    text_problem-short (View.string s) = ground arith
    text_problem-short (View.array items) = refl
    text_problem-short (View.object m) = refl
    text_problem-short (View.bool b) = refl
    text_problem-short (View.number n) = refl

    value_problem-short :
        (v : Value) (depth : ℕ)
        → ltb policy.max_depth depth ≡ false
        → is_clean (value_problem policy v depth) ≡ is_short policy v
    unfolding value_problem is_short
    value_problem-short v depth within = rw within (text_problem-short (view v))

    value_problem-beyond :
        (v : Value) (depth : ℕ)
        → ltb policy.max_depth depth ≡ true
        → value_problem policy v depth ≡ some (nesting_message policy)
    unfolding value_problem
    value_problem-beyond v depth beyond = rw beyond refl

    -- A level below the one that the policy leaves.
    left_below :
        (depth : ℕ)
        → ltb policy.max_depth depth ≡ false
        → levels_left policy depth ≡ suc (levels_left policy (depth + 1))
    left_below depth within = ground arith

    left_none : (depth : ℕ) → ltb policy.max_depth depth ≡ true → levels_left policy depth ≡ 0
    left_none depth beyond = ground arith

    work_pos : (v : Value) (levels : ℕ) → 1 ≤ tally levels v
    unfolding tally
    work_pos v zero = omega arith
    work_pos v (suc levels) = omega arith

    work-one : (v : Value) (depth : ℕ) → work ((v, depth) ∷ []) ≤ tally (levels_left policy depth) v
    unfolding work
    work-one v depth = omega arith

    clean-one :
        (v : Value) (depth : ℕ) → clean ((v, depth) ∷ []) ≡ fits policy (levels_left policy depth) v
    unfolding clean
    clean-one v depth = ground arith

    -- The result of the rounds that are left, and what it says of the stack.
    abbrev Finds : Option (Option String) → Bool → Type 0
    Finds found good = (r : Option String) × (found ≡ some r) × (is_clean r ≡ good)

    inspect_stack-clean :
        (fuel : ℕ) (stack : List (Value × ℕ))
        → work stack ≤ fuel
        → Finds (inspect_stack fuel policy stack) (clean stack)
    unfolding inspect_stack work clean fits tally
    inspect_stack-clean fuel [] h = (none, refl, refl)
    inspect_stack-clean zero ((v, depth) ∷ stack) h =
        absurd (omega (arith, work_pos v (levels_left policy depth)))
    inspect_stack-clean (suc fuel) ((v, depth) ∷ stack) h =
        elim (Bool-cases (ltb policy.max_depth depth)) [
          | inl beyond ↦ (
            some (nesting_message policy),
            rw (value_problem-beyond v depth beyond, inspect_stack) refl,
            rw (left_none depth beyond) refl,
          )
          | inr within ↦ elim (Option-cases (value_problem policy v depth)) [
            | inr (problem, found) ↦ (
              some problem,
              rw (found, inspect_stack) refl,
              rw (left_below depth within) (ground (arith, value_problem-short v depth within)),
            )
            | inl fine ↦
                let below = levels_left policy (depth + 1) in
                let pushed = push_children stack (children v) (depth + 1) in
                let spent : tally (levels_left policy depth) v
                    ≡ suc (total (tally below) (children v)) =
                  rw (left_below depth within) refl in
                let (r, ends, good) =
                  inspect_stack-clean fuel pushed
                    (omega (arith, spent, work-push_children stack (children v) (depth + 1))) in
                (
                  r,
                  rw (fine, inspect_stack) ends,
                  rw (left_below depth within) (
                      ground (
                        arith,
                        good,
                        clean-push_children stack (children v) (depth + 1),
                        value_problem-short v depth within,
                      )),
                )
          ]
        ]

  -- The walk over a value always ends, and it finds no problem exactly where the value nests within the
  -- levels that the policy leaves at its depth and has no text that is too long, by recursion on the
  -- value.
  pub inspect_value-fits :
      (policy : GraphPolicy) (root : Value) (depth : ℕ)
      → (r : Option String) × (inspect_value policy root depth ≡ some r)
        × (is_clean r ≡ fits policy (levels_left policy depth) root)
  unfolding inspect_value
  inspect_value-fits policy root depth =
      let (r, ends, good) =
        inspect_stack-clean policy (tally (levels_left policy depth) root) ((root, depth) ∷ [])
          (work-one policy root depth) in
      (r, ends, good ∙ clean-one policy root depth)
