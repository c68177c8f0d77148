-- ===== src/Durable/Human.antt =====
-- durable/human.rs: the two gates that wait for a person, and the answers that resume them.
pub mod Gate
pub mod Endings
use fancy_flow_rs.Prelude.{
  List, [], ◌∷◌, String, Bool, true, false, Option, some, none, if◌then◌else◌, ◌==◌, ◌<>◌, not,
}
use fancy_flow_rs.Prelude.BTreeMap
use fancy_flow_rs.Prelude.BTreeMap.{BTreeMap}
use fancy_flow_rs.Platform.{Platform, view_flag}
use fancy_flow_rs.Runtime.Port
use fancy_flow_rs.Executors.{ExecutionContext, value}
use fancy_flow_rs.Executors.Context.{
  Ran, abort, pause_for_human, input, input_or_all, option, value_or,
}
use fancy_flow_rs.Nodes.Expr.{truthy}

-- Who holds a `RefCell` while the run executes.
pub data Borrow : Type 0 where
  unborrowed : Borrow
  read_elsewhere : Borrow
  written_elsewhere : Borrow

abbrev pub can_read : Borrow → Bool
can_read unborrowed = true
can_read read_elsewhere = true
can_read written_elsewhere = false

abbrev pub can_write : Borrow → Bool
can_write unborrowed = true
can_write read_elsewhere = false
can_write written_elsewhere = false

abbrev pub borrowed : String
borrowed =
    "the human gate's Submissions are borrowed elsewhere while the run executes; release the borrow before running the graph"

module _ ⦃P : Platform⦄ where
  open P use {Value, is_null, view, null, string, array, object, empty, insert}

  pub record Submissions : Type 0 where
    pub answers : BTreeMap Value
    pub awaiting : Option String

  abbrev pub no_submissions : Submissions
  no_submissions = record { answers = []; awaiting = none }

  pub data Recording : Type 0 where
    recorded : Submissions → Recording
    not_awaiting : String → Recording

  unfoldable pub record_answer : Submissions → String → Value → Recording
  unfolding BTreeMap.insert
  record_answer s node_id answer = elim s.awaiting [
    | none ↦ not_awaiting (
        "This run is not waiting for anyone, so an answer for '" <> node_id
        <> "' has nothing to resume.")
    | some awaiting ↦
        if awaiting == node_id
        then recorded
            (record { answers = BTreeMap.insert s.answers node_id answer; awaiting = none })
        else not_awaiting (
            "This run is waiting on '" <> awaiting <> "', not '" <> node_id
            <> "'. Recording an answer for a node the run is not parked on would be stored and never read.")
  ]

  unfoldable pub answered : Submissions → String → Bool
  unfolding BTreeMap.contains_key
  answered s node_id = BTreeMap.contains_key s.answers node_id

  unfoldable pub answer_for : Submissions → String → Option Value
  unfolding BTreeMap.get
  answer_for s node_id = BTreeMap.get s.answers node_id

  unfoldable pub park : Submissions → String → Submissions
  park s node_id = record s { awaiting = some node_id }

  abbrev pub is_flag_true : Option Bool → Bool
  is_flag_true (some flag) = flag
  is_flag_true none = false

  abbrev pub flag_in : Option Value → Option Bool
  flag_in (some v) = view_flag (view v)
  flag_in none = none

  unfoldable pub auto_answers : ExecutionContext → Bool
  unfolding option
  auto_answers ctx = is_flag_true (flag_in (option ctx "autoAnswerFromInput"))

  unfoldable pub present : Option Value → Option Value
  present (some v) = if is_null v then none else some v
  present none = none

  unfoldable pub decide : ExecutionContext → Value → Value
  unfolding truthy input_or_all
  decide ctx decision =
      Port.branch (if truthy decision then "approved" else "denied") (input_or_all ctx)

  -- The answer on the port, where the node takes it from there.
  unfoldable pub given : ExecutionContext → String → Option Value
  unfolding auto_answers present input
  given ctx port = if auto_answers ctx then present (input ctx port) else none

  -- Parking writes the cell, and then the run stops with the pause.
  abbrev pub park_and_pause :
      Borrow → Submissions → ExecutionContext → String → P.Map → Ran × Submissions
  park_and_pause cell s ctx awaiting detail =
      if can_write cell
      then (pause_for_human ctx awaiting (some (object detail)), park s ctx.node.id)
      else (abort borrowed, s)

  -- What both gates do: an answer that is recorded, then one that the node takes from its input, and
  -- else a pause.
  unfoldable pub gate :
      Borrow
      → Submissions
      → ExecutionContext
      → (Value → Value)
      → Option Value
      → String
      → P.Map
      → Ran × Submissions
  unfolding answer_for pause_for_human park abort
  gate cell s ctx finish from_input awaiting detail =
      if can_read cell
      then elim (answer_for s ctx.node.id) [
        | some answer ↦ (([], value (finish answer)), s)
        | none ↦ elim from_input [
          | some answer ↦ (([], value (finish answer)), s)
          | none ↦ park_and_pause cell s ctx awaiting detail
        ]
      ]
      else (abort borrowed, s)

  unfoldable pub input_detail : ExecutionContext → P.Map
  unfolding option
  input_detail ctx =
      insert (insert empty "title" (value_or (option ctx "title") (string "Need your input")))
        "fields" (value_or (option ctx "fields") (array []))

  unfoldable pub approval_detail : ExecutionContext → P.Map
  unfolding option
  approval_detail ctx =
      insert (insert empty "title" (value_or (option ctx "title") (string "Approve action")))
        "description" (value_or (option ctx "description") null)

  unfoldable pub durable_user_input : Borrow → Submissions → ExecutionContext → Ran × Submissions
  unfolding gate given input_detail
  durable_user_input cell s ctx =
      gate cell s ctx (λ answer. answer) (given ctx "values") "input" (input_detail ctx)

  unfoldable pub durable_approval : Borrow → Submissions → ExecutionContext → Ran × Submissions
  unfolding gate given approval_detail decide
  durable_approval cell s ctx =
      gate cell s ctx (decide ctx) (given ctx "approved") "approval" (approval_detail ctx)
