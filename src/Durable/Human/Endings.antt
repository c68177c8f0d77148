-- ===== src/Durable/Human/Endings.antt =====
-- How a gate ends, whoever holds the cell of the answers.
use fancy_flow_rs.Prelude.{
  [], String, true, false, Option, some, none, ◌≡◌, ◌≢◌, ◌⊎◌, inl, inr, refl, Bool-cases,
  Option-cases, sym, subst, ◌∙◌,
}
use fancy_flow_rs.Platform.{Platform, View, view_flag}
use fancy_flow_rs.Executors.{ExecutionContext, value, aborted}
use fancy_flow_rs.Executors.Context.{Ran, abort, pause_for_human, input, option}
use fancy_flow_rs.Durable.Human.{
  Borrow, unborrowed, read_elsewhere, written_elsewhere, borrowed, can_read, Submissions,
  answer_for, park, flag_in, is_flag_true, auto_answers, present, given, gate, park_and_pause,
}

module _ ⦃P : Platform⦄ where
  open P use {Value, is_null, view, object}

  -- The value is the flag `true` itself, and no text or number that could be read as it.
  abbrev IsOn : Option Value → Type 0
  IsOn none = ⊥
  IsOn (some setting) = view setting ≡ View.bool true

  flag_in-IsOn : (o : Option Value) → is_flag_true (flag_in o) ≡ true → IsOn o
  flag_in-IsOn none e = cc e
  flag_in-IsOn (some v) e = by_view (view v) e
    where
      by_view :
          (x : View Value P.Map P.Float) → is_flag_true (view_flag x) ≡ true → x ≡ View.bool true
      by_view View.null e = cc e
      by_view (View.bool true) e = refl
      by_view (View.bool false) e = cc e
      by_view (View.number n) e = cc e
      by_view (View.string s) e = cc e
      by_view (View.array l) e = cc e
      by_view (View.object m) e = cc e

  IsOn-flag_in : (o : Option Value) → is_flag_true (flag_in o) ≡ false → ¬ IsOn o
  IsOn-flag_in none e on = on
  IsOn-flag_in (some v) e on = cc (e, on)

  cell_cases :
      (cell : Borrow)
      → (cell ≡ written_elsewhere)
        ⊎ ((can_read cell ≡ true)
            × (cell ≢ written_elsewhere)
            × ((cell ≡ read_elsewhere) ⊎ (cell ≡ unborrowed)))
  cell_cases unborrowed = inr (refl, λ e. cc e, inr refl)
  cell_cases read_elsewhere = inr (refl, λ e. cc e, inl refl)
  cell_cases written_elsewhere = inl refl

  module _ (ctx : ExecutionContext) where
    -- The node is set to take an answer from its input, and this one stands there on the port.
    abbrev pub Takes : String → Value → Type 0
    Takes port a =
        IsOn (option ctx "autoAnswerFromInput")
        × (P.get ctx.inputs port ≡ some a)
        × (is_null a ≡ false)

    -- The node takes nothing: it is not set to, or nothing but null stands on the port.
    abbrev pub TakesNothing : String → Type 0
    TakesNothing port =
        (¬ IsOn (option ctx "autoAnswerFromInput"))
        ⊎ (P.get ctx.inputs port ≡ none)
        ⊎ ((a : Value) × (P.get ctx.inputs port ≡ some a) × (is_null a ≡ true))

    given-cases :
        (port : String)
        → ((a : Value) × (given ctx port ≡ some a) × Takes port a)
          ⊎ ((given ctx port ≡ none) × TakesNothing port)
    unfolding given auto_answers input present
    given-cases port =
        elim (Bool-cases (is_flag_true (flag_in (option ctx "autoAnswerFromInput")))) [
          | inr off ↦ inr (
            rw (off, given, auto_answers) refl,
            inl (IsOn-flag_in (option ctx "autoAnswerFromInput") off),
          )
          | inl on ↦ elim (Option-cases (P.get ctx.inputs port)) [
            | inl absent ↦
                inr (rw (on, absent, given, auto_answers, input, present) refl, inr (inl absent))
            | inr (a, found) ↦ elim (Bool-cases (is_null a)) [
              | inl nothing ↦ inr (
                rw (on, found, nothing, given, auto_answers, input, present) refl,
                inr (inr (a, found, nothing)),
              )
              | inr something ↦ inl (
                a,
                rw (on, found, something, given, auto_answers, input, present) refl,
                (flag_in-IsOn (option ctx "autoAnswerFromInput") on, found, something),
              )
            ]
          ]
        ]

    module _ (s : Submissions) where
      -- How a gate ends, by who holds the cell: an answer is what was recorded for the node, and only
      -- without one what the node takes from its input.
      abbrev pub Gated :
          Borrow → (Value → Value → Type 0) → String → String → P.Map → Ran × Submissions → Type 0
      Gated cell Gives port awaiting detail ran =
          ((cell ≡ written_elsewhere) × (ran ≡ (([], aborted borrowed), s)))
          ⊎ ((cell ≢ written_elsewhere)
              × ((a : Value) × (v : Value) × ((answer_for s ctx.node.id ≡ some a)
                    ⊎ ((answer_for s ctx.node.id ≡ none) × Takes port a))
                  × Gives a v
                  × (ran ≡ (([], value v), s))))
          ⊎ ((answer_for s ctx.node.id ≡ none)
              × TakesNothing port
              × (((cell ≡ read_elsewhere) × (ran ≡ (([], aborted borrowed), s)))
                  ⊎ ((cell ≡ unborrowed)
                      × (ran ≡ (
                        pause_for_human ctx awaiting (some (object detail)),
                        record s { awaiting = some ctx.node.id },
                      )))))

      module _ (cell : Borrow) (finish : Value → Value) (from_input : Option Value)
          (awaiting : String) (detail : P.Map) where
        gate-written_elsewhere :
            cell ≡ written_elsewhere
            → gate cell s ctx finish from_input awaiting detail ≡ (([], aborted borrowed), s)
        unfolding gate abort
        gate-written_elsewhere e = rw (e, gate) refl

        gate-recorded :
            (a : Value)
            → can_read cell ≡ true
            → answer_for s ctx.node.id ≡ some a
            → gate cell s ctx finish from_input awaiting detail ≡ (([], value (finish a)), s)
        unfolding gate
        gate-recorded a held found = rw (held, gate) (rw (found, gate) refl)

        gate-taken :
            (a : Value)
            → can_read cell ≡ true
            → answer_for s ctx.node.id ≡ none
            → from_input ≡ some a
            → gate cell s ctx finish from_input awaiting detail ≡ (([], value (finish a)), s)
        unfolding gate
        gate-taken a held unanswered taken =
            rw (held, gate) (rw (unanswered, gate) (rw (taken, gate) refl))

        gate-parked :
            can_read cell ≡ true
            → answer_for s ctx.node.id ≡ none
            → from_input ≡ none
            → gate cell s ctx finish from_input awaiting detail
              ≡ park_and_pause cell s ctx awaiting detail
        unfolding gate
        gate-parked held unanswered nothing =
            rw (held, gate) (rw (unanswered, gate) (rw (nothing, gate) refl))

        parked :
            (cell ≡ read_elsewhere) ⊎ (cell ≡ unborrowed)
            → ((cell ≡ read_elsewhere)
                × (park_and_pause cell s ctx awaiting detail ≡ (([], aborted borrowed), s)))
              ⊎ ((cell ≡ unborrowed)
                  × (park_and_pause cell s ctx awaiting detail ≡ (
                    pause_for_human ctx awaiting (some (object detail)),
                    record s { awaiting = some ctx.node.id },
                  )))
        unfolding park abort
        parked (inl e) = inl (e, rw e refl)
        parked (inr e) = inr (e, rw e refl)

        pub gate-Gated :
            (Gives : Value → Value → Type 0) (port : String)
            → ((a : Value) → Gives a (finish a))
            → from_input ≡ given ctx port
            → Gated cell Gives port awaiting detail
                (gate cell s ctx finish from_input awaiting detail)
        gate-Gated Gives port gives e = elim (cell_cases cell) [
          | inl busy ↦ inl (busy, gate-written_elsewhere busy)
          | inr (held, free, holder) ↦ elim (Option-cases (answer_for s ctx.node.id)) [
            | inr (a, found) ↦
                inr (inl (free, (a, finish a, inl found, gives a, gate-recorded a held found)))
            | inl unanswered ↦ elim (given-cases port) [
              | inl (a, taken, takes) ↦ inr (
                  inl (
                    free,
                    (
                      a,
                      finish a,
                      inr (unanswered, takes),
                      gives a,
                      gate-taken a held unanswered (e ∙ taken),
                    ),
                  ))
              | inr (nothing, untaken) ↦ inr (
                  inr (
                    unanswered,
                    untaken,
                    subst Parks (sym (gate-parked held unanswered (e ∙ nothing))) (parked holder),
                  ))
            ]
          ]
        ]
          where
            Parks : Ran × Submissions → Type 0
            Parks ran =
                ((cell ≡ read_elsewhere) × (ran ≡ (([], aborted borrowed), s)))
                ⊎ ((cell ≡ unborrowed)
                    × (ran ≡ (
                      pause_for_human ctx awaiting (some (object detail)),
                      record s { awaiting = some ctx.node.id },
                    )))
