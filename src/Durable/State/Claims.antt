-- ===== src/Durable/State/Claims.antt =====
-- Who wins a claim, and which call settles a skip.
use fancy_flow_rs.Prelude.{
  ℕ, ◌+◌, ℤ, List, [], ◌∷◌, String, Bool, true, false, not, Option, some, none, if◌then◌else◌, ◌≡◌,
  ◌≢◌, inl, inr, refl, sym, ap, subst, ◌∙◌, arith, eq_iff, eq_refl, Option-cases, Bool-cases,
}
use fancy_flow_rs.Platform.{Platform}
use fancy_flow_rs.Durable.State.{
  NodeState, InMemoryClaimStore, claim, own_claim, skip, settled_row, first_claim, reclaim,
  skipped_row, is_settled, claimed,
}
use fancy_flow_rs.Durable.State.Rows.{Op, claim_op, skip_op, apply, row_after, row_at, row_at-apply}

module _ ⦃P : Platform⦄ where
  -- A row that `owner` holds as a claim.
  abbrev pub HeldBy : String → Option NodeState → Type 0
  HeldBy owner (some row) = (row.status ≡ claimed) × (row.owner ≡ some owner)
  HeldBy owner none = ⊥

  -- Whether a claim by `owner` is admitted at a row.
  unfoldable pub admits : String → Option NodeState → Bool
  admits owner none = true
  admits owner (some row) = own_claim row owner

  pub claim-admits :
      (store : InMemoryClaimStore) (run node owner : String) (now : ℤ)
      → (claim store run node owner now).1 ≡ admits owner (row_at store run node)
  unfolding claim admits
  claim-admits store run node owner now = elim (Option-cases (row_at store run node)) [
    | inl e ↦ rw (e, claim)
    | inr (row, e) ↦ elim (Bool-cases (own_claim row owner)) [
      | inl own ↦ rw (e, own, claim)
      | inr other ↦ rw (e, other, claim)
    ]
  ]

  pub row_at-apply_self :
      (op : Op) (store : InMemoryClaimStore) (run node : String)
      → row_at (apply op store run node) run node ≡ row_after op (row_at store run node)
  row_at-apply_self op store run node = row_at-apply op store run node run node ∙ simp (eq_refl)

  pub row_at-claim_self :
      (store : InMemoryClaimStore) (run node owner : String) (now : ℤ)
      → row_at (claim store run node owner now).0 run node
        ≡ row_after (claim_op owner now) (row_at store run node)
  unfolding apply
  row_at-claim_self store run node owner now = row_at-apply_self (claim_op owner now) store run node

  row_after-HeldBy :
      (owner : String) (now : ℤ) (row : Option NodeState)
      → admits owner row ≡ true
      → HeldBy owner (row_after (claim_op owner now) row)
  unfolding admits row_after own_claim first_claim reclaim
  row_after-HeldBy owner now none h = (refl, refl)
  row_after-HeldBy owner now (some row) h = elim (Option-cases row.owner) [
    | inl e ↦ ground arith
    | inr (holder, e) ↦ ground (arith, eq_iff holder owner)
  ]

  row_after-rival :
      (owner rival : String) (now : ℤ) (row : Option NodeState)
      → owner ≢ rival
      → HeldBy owner row
      → (admits rival row ≡ false) × (row_after (claim_op rival now) row ≡ row)
  unfolding admits row_after own_claim
  row_after-rival owner rival now none d h = absurd h
  row_after-rival owner rival now (some row) d h = ground (arith, eq_iff owner rival)

  -- Claims of one node by others, one after another, and how many of them win.
  unfoldable pub race :
      InMemoryClaimStore → String → String → List (String × ℤ) → InMemoryClaimStore × ℕ
  unfolding claim
  race store run node [] = (store, 0)
  race store run node ((rival, now) ∷ rivals) =
      let after = claim store run node rival now in
      let rest = race after.0 run node rivals in (rest.0, (if after.1 then 1 else 0) + rest.1)

  abbrev pub NotAmong : String → List (String × ℤ) → Type 0
  NotAmong owner [] = Unit
  NotAmong owner ((rival, now) ∷ rivals) = (owner ≢ rival) × NotAmong owner rivals

  race_held :
      (store : InMemoryClaimStore) (run node owner : String) (rivals : List (String × ℤ))
      → NotAmong owner rivals
      → HeldBy owner (row_at store run node)
      → ((race store run node rivals).1 ≡ 0)
        × (row_at (race store run node rivals).0 run node ≡ row_at store run node)
  unfolding race
  race_held store run node owner [] d h = (refl, refl)
  race_held store run node owner ((rival, now) ∷ rivals) d h =
      let after = claim store run node rival now in
      let lost = row_after-rival owner rival now (row_at store run node) d.0 h in
      let same = row_at-claim_self store run node rival now ∙ lost.1 in
      let won = claim-admits store run node rival now ∙ lost.0 in
      let rest = race_held after.0 run node owner rivals d.1 (rw same h) in
      (rw won (omega (arith, rest.0)), rest.1 ∙ same)

  -- After a claim is won, every claim of that node by other owners is lost, and the row stays as the
  -- winner's claim left it: claimed, and owned by the winner.
  pub claim-exclusive :
      (store : InMemoryClaimStore) (run node owner : String) (now : ℤ) (rivals : List (String × ℤ))
      → (claim store run node owner now).1 ≡ true
      → NotAmong owner rivals
      → ((race (claim store run node owner now).0 run node rivals).1 ≡ 0)
        × HeldBy owner (row_at (race (claim store run node owner now).0 run node rivals).0 run node)
  claim-exclusive store run node owner now rivals won d =
      let held : HeldBy owner (row_at (claim store run node owner now).0 run node) =
        subst (HeldBy owner) (sym (row_at-claim_self store run node owner now)) (
          row_after-HeldBy owner now (row_at store run node)
            (sym (claim-admits store run node owner now) ∙ won)) in
      let rest = race_held (claim store run node owner now).0 run node owner rivals d held in
      (rest.0, subst (HeldBy owner) (sym rest.1) held)

  pub skip-reports :
      (store : InMemoryClaimStore) (run node : String)
      → (skip store run node).1 ≡ not (settled_row (row_at store run node))
  unfolding skip
  skip-reports store run node = elim (Bool-cases (settled_row (row_at store run node))) [
    | inl h ↦ rw (h, skip)
    | inr h ↦ rw (h, skip)
  ]

  row_after-skip :
      (row : Option NodeState)
      → (settled_row (row_after skip_op row) ≡ true)
        × (settled_row row ≡ true → row_after skip_op row ≡ row)
  unfolding row_after settled_row skipped_row is_settled
  row_after-skip none = (refl, λ h. cc)
  row_after-skip (some row) = ground arith

  -- A skip settles its row and says so exactly where the row was not settled; a second skip of the
  -- row reports nothing and changes no row.
  pub skip-once :
      (store : InMemoryClaimStore) (run node r n : String)
      → ((skip store run node).1 ≡ not (settled_row (row_at store run node)))
        × (settled_row (row_at (skip store run node).0 run node) ≡ true)
        × ((skip (skip store run node).0 run node).1 ≡ false)
        × (row_at (skip (skip store run node).0 run node).0 r n
            ≡ row_at (skip store run node).0 r n)
  unfolding apply
  skip-once store run node r n =
      let after = (skip store run node).0 in
      let settles : settled_row (row_at after run node) ≡ true =
        rw (row_at-apply_self skip_op store run node) (row_after-skip (row_at store run node)).0 in
      (
        skip-reports store run node,
        settles,
        skip-reports after run node ∙ ap not settles,
        ground (
          arith,
          row_at-apply skip_op after run node r n,
          (row_after-skip (row_at after run node)).1 settles,
          eq_iff run r,
          eq_iff node n,
        ),
      )
