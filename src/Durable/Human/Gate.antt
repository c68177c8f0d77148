-- ===== src/Durable/Human/Gate.antt =====
-- A gate lets nothing pass but an answer.
use fancy_flow_rs.Prelude.{
  [], String, true, false, Option, some, none, ◌≡◌, ◌≢◌, ◌⊎◌, inl, inr, refl, eq_refl, Bool-cases,
  ne→==-false,
}
use fancy_flow_rs.Prelude.BTreeMap
use fancy_flow_rs.Prelude.BTreeMap.{BTreeMap, get-insert}
use fancy_flow_rs.Platform.{Platform}
use fancy_flow_rs.Executors.{ExecutionContext, value}
use fancy_flow_rs.Executors.Context.{Ran, pause_for_human, input_or_all}
use fancy_flow_rs.Runtime.Port
use fancy_flow_rs.Nodes.Expr.{truthy}
use fancy_flow_rs.Durable.Human.Endings.{Gated, gate-Gated}
use fancy_flow_rs.Durable.Human.{
  Borrow, unborrowed, Submissions, recorded, not_awaiting, record_answer, answer_for, park, given,
  gate, input_detail, approval_detail, decide, durable_user_input, durable_approval,
}

module _ ⦃P : Platform⦄ (s : Submissions) (ctx : ExecutionContext) where
  open P use {Value, object}

  module _ (finish : Value → Value) (from_input : Option Value) (awaiting : String)
      (detail : P.Map) where
    pauses :
        answer_for s ctx.node.id ≡ none
        → from_input ≡ none
        → gate unborrowed s ctx finish from_input awaiting detail
          ≡ (pause_for_human ctx awaiting (some (object detail)), park s ctx.node.id)
    unfolding gate
    pauses unanswered nothing = rw (unanswered, gate) (rw (nothing, gate) refl)

    passes :
        (t : Submissions) (a : Value)
        → answer_for t ctx.node.id ≡ some a
        → gate unborrowed t ctx finish from_input awaiting detail ≡ (([], value (finish a)), t)
    unfolding gate
    passes t a answered = rw (answered, gate) refl

  get_inserted :
      (answers : BTreeMap Value) (id : String) (a : Value)
      → answer_for (record { answers = BTreeMap.insert answers id a; awaiting = none }) id ≡ some a
  unfolding answer_for
  get_inserted answers id a = rw (get-insert answers id a id, eq_refl id) refl

  -- What becomes of an answer that is recorded after a pause: the node's own is taken and ends the
  -- gate; an answer for another node is refused.
  abbrev pub Resumes : (Submissions → Ran × Submissions) → (Value → Value) → Value → Type 0
  Resumes run finish answer =
      ((s' : Submissions) × (record_answer (run s).1 ctx.node.id answer ≡ recorded s')
        × (run s' ≡ (([], value (finish answer)), s')))
      × ((other : String)
          → ctx.node.id ≢ other
          → (reason : String) × (record_answer (run s).1 other answer ≡ not_awaiting reason))

  gate-Resumes :
      (finish : Value → Value) (from_input : Option Value) (awaiting : String) (detail : P.Map)
      (answer : Value)
      → answer_for s ctx.node.id ≡ none
      → from_input ≡ none
      → Resumes (λ t. gate unborrowed t ctx finish from_input awaiting detail) finish answer
  unfolding record_answer park
  gate-Resumes finish from_input awaiting detail answer unanswered nothing =
      let paused = pauses finish from_input awaiting detail unanswered nothing in
      let id = ctx.node.id in
      let s' : Submissions = record {
        answers = BTreeMap.insert s.answers id answer;
        awaiting = none;
      } in
      (
        (
          s',
          rw paused (rw (eq_refl id) refl),
          passes finish from_input awaiting detail s' answer
              (get_inserted s.answers ctx.node.id answer),
        ),
        λ other differs. rw paused (rw (ne→==-false id other differs) (_, refl)),
      )

  -- What a gate for approval gives for a decision: the port that the decision names, with the input.
  abbrev pub Decides : Value → Value → Type 0
  Decides a v =
      ((truthy a ≡ true) × (v ≡ Port.branch "approved" (input_or_all ctx)))
      ⊎ ((truthy a ≡ false) × (v ≡ Port.branch "denied" (input_or_all ctx)))

  decide-Decides : (a : Value) → Decides a (decide ctx a)
  unfolding decide
  decide-Decides a = elim (Bool-cases (truthy a)) [
    | inl e ↦ inl (e, rw e refl)
    | inr e ↦ inr (e, rw e refl)
  ]

  -- A gate for input and a gate for approval end with a value only by an answer: the one recorded for
  -- the node, and without one the value on the port `values` or `approved` of the input, which is taken
  -- only where the setting `autoAnswerFromInput` is the flag `true` and the value is not null. The input
  -- gate gives the answer itself, and the approval gate the input on the port `approved` or `denied`.
  -- Without either, the gate stops the run with a pause that names what is awaited, and changes nothing
  -- but the node that the run waits for. Where the cell of the answers is written elsewhere, or is read
  -- elsewhere and the gate would have to park, it aborts and changes nothing.
  pub durable-Gated :
      (cell : Borrow)
      → Gated ctx s cell
          (λ a v. v ≡ a)
          "values"
          "input"
          (input_detail ctx)
          (durable_user_input cell s ctx)
        × Gated ctx s cell Decides "approved" "approval"
            (approval_detail ctx)
            (durable_approval cell s ctx)
  unfolding durable_user_input durable_approval
  durable-Gated cell = (
    gate-Gated ctx s cell (λ a. a) (given ctx "values") "input" (input_detail ctx) (λ a v. v ≡ a)
        "values" (λ a. refl) refl,
    gate-Gated ctx s cell (decide ctx) (given ctx "approved") "approval" (approval_detail ctx)
        Decides "approved" decide-Decides refl,
  )

  -- After a gate has paused, an answer for its node is recorded and the gate then ends with it: the
  -- input itself, or the port that the decision names. An answer for another node is refused.
  pub durable-Resumes :
      (answer : Value)
      → answer_for s ctx.node.id ≡ none
      → given ctx "values" ≡ none
      → given ctx "approved" ≡ none
      → Resumes (λ t. durable_user_input unborrowed t ctx) (λ a. a) answer
        × Resumes (λ t. durable_approval unborrowed t ctx) (decide ctx) answer
  unfolding durable_user_input durable_approval
  durable-Resumes answer unanswered values approved = (
    gate-Resumes (λ a. a) (given ctx "values") "input" (input_detail ctx) answer unanswered values,
    gate-Resumes (decide ctx) (given ctx "approved") "approval" (approval_detail ctx) answer
        unanswered approved,
  )
