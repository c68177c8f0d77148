-- ===== src/Tests/Further.antt =====
-- The theorems about publishing, replays, dispatch and pauses, at concrete inputs.
use fancy_flow_rs.Prelude.{
  ℕ, ◌+◌, ◌≤◌, [], ◌∷◌, true, false, some, none, if◌then◌else◌, ◌==◌, ◌≡◌, refl, arith, eq_iff,
  length, max,
}
use fancy_flow_rs.Prelude.BTreeMap
use fancy_flow_rs.Runtime.Port.{only, branch, many}
use fancy_flow_rs.Runtime.Pause.{PauseSignal, encode, decode, payload}
use fancy_flow_rs.Runtime.Pause.RoundTrip.{decode-encode}
use fancy_flow_rs.Runtime.Options.{default_options}
use fancy_flow_rs.Registry.Catalogue.{empty_registry}
use fancy_flow_rs.Executors.{ExecutionContext, Reply, value}
use fancy_flow_rs.Engine.Activation.{activated_ports}
use fancy_flow_rs.Engine.Activation.Wrapped.{activated_ports-wrapped}
use fancy_flow_rs.Engine.Walk.{publish, port_key}
use fancy_flow_rs.Engine.Walk.Publishing.{get-publish}
use fancy_flow_rs.Durable.Store.{in_memory}
use fancy_flow_rs.Registry.KindId.{dedup_extend}
use fancy_flow_rs.Durable.Completion.{run_to_completion}
use fancy_flow_rs.Durable.Completion.Returns.{run_to_completion-returns}
use fancy_flow_rs.Durable.Dispatch.{held_count}
use fancy_flow_rs.Durable.Frontier.{compute}
use fancy_flow_rs.Durable.Frontier.Runnable.{IsRunnable}
use fancy_flow_rs.Durable.Replay.{replay_up_to, is_target}
use fancy_flow_rs.Durable.Replay.Fenced.{replay_up_to-fenced}
use fancy_flow_rs.Durable.Coordinator.{DurableRunResult, Session, advance}
use fancy_flow_rs.Durable.Coordinator.Handed.{advance-IsRunnable, advance_budget}
use fancy_flow_rs.Tests.Sample.{sample, line, bound, setup, answer, node, edge, text, nothing, Json}
use fancy_flow_rs.Tests.Walks.{begun, coordinator, session}

get-publish_example :
    (BTreeMap.get (publish setup (node "a") (text "x") false begun).port_values "a:out"
      ≡ some (text "x"))
    × (BTreeMap.get (publish setup (node "a") (text "x") false begun).outputs "a" ≡ some (text "x"))
unfolding activated_ports port_key
get-publish_example = get-publish setup (node "a") (text "x") false begun "out"

activated_ports-wrapped_example :
    (activated_ports none (node "a") (only "yes" (text "x"))
      ≡ record { ports = "yes" ∷ []; value = text "x"; per_port = none })
    × (activated_ports none (node "a") (branch "yes" (text "x"))
        ≡ record { ports = "yes" ∷ []; value = text "x"; per_port = none })
    × (activated_ports none (node "a") (many ("l" ∷ "r" ∷ []) (text "x"))
        ≡ record { ports = "l" ∷ "r" ∷ []; value = text "x"; per_port = none })
activated_ports-wrapped_example =
    activated_ports-wrapped none (node "a") "yes" ("l" ∷ "r" ∷ []) (text "x")

abbrev signal : PauseSignal
signal = record { node_id = "a"; awaiting = "input"; detail = some nothing }

decode-encode_example :
    decode (some (encode signal))
    ≡ some (record { node_id = "a"; awaiting = "input"; detail = none })
unfolding payload fancy_flow_rs.Tests.Sample.insert_field
decode-encode_example = decode-encode signal refl

-- A host that answers about the target only, and counts twice elsewhere.
abbrev odd_answer : ℕ → ExecutionContext → ℕ → Reply
odd_answer h ctx w = record {
  world = if ctx.node.id == "a" then w + 1 else w + 2;
  emitted = [];
  outcome = value (text "done");
}

alike :
    (h : ℕ) (ctx : ExecutionContext) (w : ℕ)
    → is_target (some "a") ctx.node.id ≡ true
    → answer h ctx w ≡ odd_answer h ctx w
alike h ctx w own =
    let same : (ctx.node.id == "a") ≡ true =
      ground (arith, own, eq_iff "a" ctx.node.id, eq_iff ctx.node.id "a") in
    rw same refl

replay_up_to-fenced_example :
    replay_up_to answer line (some "a") bound none default_options empty_registry 0
    ≡ replay_up_to odd_answer line (some "a") bound none default_options empty_registry 0
replay_up_to-fenced_example =
    replay_up_to-fenced (some "a") answer odd_answer line bound none default_options empty_registry
      0 alike

advance-IsRunnable_example :
    IsRunnable line (in_memory.state [] "run") (compute line (in_memory.state [] "run")).skipped "a"
unfolding advance fancy_flow_rs.Durable.State.state
advance-IsRunnable_example = advance-IsRunnable coordinator (session []) "a" tt refl

advance_budget_example :
    length (advance coordinator (session [])).0
      + held_count (in_memory.state (advance coordinator (session [])).1.store "run")
    ≤ max 1 (held_count (in_memory.state (advance coordinator (session [])).1.store "run"))
advance_budget_example = advance_budget coordinator (session []) (omega arith)

run_to_completion-returns_example :
    (r : DurableRunResult × Session) × (run_to_completion coordinator none (session []) ≡ some r)
unfolding dedup_extend
run_to_completion-returns_example = run_to_completion-returns coordinator refl none (session [])
