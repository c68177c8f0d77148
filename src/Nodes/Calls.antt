-- ===== src/Nodes/Calls.antt =====
-- nodes/io.rs, nodes/ai.rs and nodes/human.rs: the executors that call a client of the host. Each
-- client is an argument: what it answers, and the host's state that it leaves.
use fancy_flow_rs.Prelude.{ℕ, ℤ, pos, negsuc, List, [], ◌∷◌, String, true, Option, some, none, ◌<>◌}
use fancy_flow_rs.Prelude.Scan.{to_ascii_uppercase}
use fancy_flow_rs.Schema.Json.{map_of, map_or_empty, int_of}
use fancy_flow_rs.Platform.{Platform}
use fancy_flow_rs.Runtime.Events.{info, log}
use fancy_flow_rs.Executors.{ExecutionContext, Reply, value}
use fancy_flow_rs.Executors.Context.{value_or, option, option_str}
use fancy_flow_rs.Nodes.Expr.{evaluate_in}
use fancy_flow_rs.Nodes.Passing.{option_text}

module _ ⦃P : Platform⦄ where
  open P use {
    Value, Map, World, null, bool, string, array, object, as_object, as_i64, empty, insert, get_in,
  }

  abbrev told : ExecutionContext → String → Value → World → Reply
  told ctx message v w = record {
    world = w;
    emitted = log info message (some ctx.node.id) ∷ [];
    outcome = value v;
  }

  unfoldable pub headers_of : ExecutionContext → Map
  unfolding option
  headers_of ctx = map_or_empty (map_of (option ctx "headers"))

  abbrev pub HttpClient : Type 0
  HttpClient = String → String → Map → Value → World → Value × World

  unfoldable pub api_request : HttpClient → ExecutionContext → World → Reply
  unfolding to_ascii_uppercase option_str option_text headers_of option evaluate_in
  api_request send ctx w =
      let method = to_ascii_uppercase (option_str ctx "method" "GET") in
      let url = option_text ctx "url" in
      let (response, w') =
        send method url (headers_of ctx) (evaluate_in (option ctx "body") ctx.inputs) w in
      told ctx ("api_request " <> method <> " " <> url) response w'

  unfoldable pub webhook_out : HttpClient → ExecutionContext → World → Reply
  unfolding option_text headers_of option evaluate_in
  webhook_out send ctx w =
      let url = option_text ctx "url" in
      let (response, w') =
        send "POST" url (headers_of ctx) (evaluate_in (option ctx "payload") ctx.inputs) w in
      let out =
        insert
          (insert (insert empty "sent" (bool true)) "status"
            (value_or (get_in response "status") null))
          "response" (value_or (get_in response "body") null) in
      told ctx ("webhook_out -> " <> url) (object out) w'

  abbrev forward : Map → String → Option Value → Map
  forward m key (some v) = insert m key v
  forward m key none = m

  -- Only the options that are set are forwarded.
  unfoldable pub forwarded : ExecutionContext → Map → List String → Map
  unfolding option
  forwarded ctx m [] = m
  forwarded ctx m (key ∷ keys) = forwarded ctx (forward m key (option ctx key)) keys

  abbrev pub completion_options : List String
  completion_options =
      "provider" ∷ "model" ∷ "system" ∷ "temperature" ∷ "max_tokens" ∷ "tools" ∷ "response_schema"
      ∷ []

  unfoldable pub llm_call :
      (String → Map → World → Value × World) → ExecutionContext → World → Reply
  unfolding option_text forwarded option_str
  llm_call complete ctx w =
      let (answer, w') =
        complete (option_text ctx "prompt") (forwarded ctx empty completion_options) w in
      told ctx ("llm_call -> " <> option_str ctx "model" "model") answer w'

  -- A tool is always called with an object.
  unfoldable pub tool_args : Value → Value
  tool_args resolved = elim (as_object resolved) [
    | some m ↦ resolved
    | none ↦ object (insert empty "value" resolved)
  ]

  unfoldable pub tool_use :
      (String → Value → World → Value × World) → ExecutionContext → World → Reply
  unfolding option_str option evaluate_in tool_args
  tool_use invoke ctx w =
      let (answer, w') =
        invoke (option_str ctx "tool" "") (tool_args (evaluate_in (option ctx "args") ctx.inputs))
          w in
      record { world = w'; emitted = []; outcome = value answer }

  -- An `i64` that is not negative is a `usize` on a target of 64 bits.
  abbrev to_usize : Option ℤ → ℕ
  to_usize (some (pos n)) = n
  to_usize (some (negsuc n)) = 5
  to_usize none = 5

  unfoldable pub top_k : ExecutionContext → ℕ
  unfolding option
  top_k ctx = to_usize (int_of (option ctx "topK"))

  unfoldable pub embed_search :
      (String → ℕ → World → List Value × World) → ExecutionContext → World → Reply
  unfolding option_text top_k
  embed_search search ctx w =
      let query = option_text ctx "query" in
      let (matches, w') = search query (top_k ctx) w in
      record {
        world = w';
        emitted = [];
        outcome =
            value (object (insert (insert empty "query" (string query)) "matches" (array matches)));
      }

  unfoldable pub notify :
      (String → String → String → World → World) → ExecutionContext → World → Reply
  unfolding option_str option_text
  notify deliver ctx w =
      let channel = option_str ctx "channel" "slack" in
      let to = option_str ctx "to" "" in
      let message = option_text ctx "message" in
      let out =
        insert
          (insert (insert (insert empty "sent" (bool true)) "channel" (string channel)) "to"
            (string to))
          "message" (string message) in
      told ctx ("notify -> " <> channel <> ":" <> to) (object out) (deliver channel to message w)
