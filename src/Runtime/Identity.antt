-- ===== src/Runtime/Identity.antt =====
-- runtime/identity.rs: the stable identity of a run, and the key of each of its steps.
use Prim.Native.Char.{code}
use fancy_flow_rs.Prelude.{
  ℕ, ℤ, ◌^◌, ◌*◌, ◌-◌, ltb_ℤ, pos, negsuc, saturating_sub, List, [], ◌∷◌, ◌++◌, String, Bool, true,
  false, Option, some, none, if◌then◌else◌, leb, nat_beq, max, ◌<>◌, decimal,
}

-- `value.replace('%', "%25").replace('/', "%2F").replace('#', "%23")`
unfoldable pub replace : ℕ → String → String → String
replace c by String.[] = ""
replace c by (String.◌∷◌ d s) =
    let rest = replace c by s in if nat_beq (code d) c then by <> rest else String.◌∷◌ d rest

unfoldable pub escape_segment : String → String
unfolding replace
escape_segment value = replace b'#' "%23" (replace b'/' "%2F" (replace b'%' "%25" value))

unfoldable pub render : String → Option ℕ → String
unfolding escape_segment
render value (some occurrence) = escape_segment value <> "#" <> decimal occurrence
render value none = escape_segment value

pub record RunIdentity : Type 0 where
  pub run_key : String
  pub path : List String
  pub attempt : ℕ
  pub first_attempt_at : ℤ

unfoldable pub with_attempt : RunIdentity → ℕ → RunIdentity
with_attempt run attempt = record run { attempt = max attempt 1 }

unfoldable pub with_first_attempt_at : RunIdentity → ℤ → RunIdentity
with_first_attempt_at run millis = record run { first_attempt_at = millis }

unfoldable pub descend : RunIdentity → String → Option ℕ → RunIdentity
unfolding render
descend run node_id occurrence = record {
  run_key = run.run_key;
  path = run.path ++ render node_id occurrence ∷ [];
  attempt = 1;
  first_attempt_at = run.first_attempt_at;
}

-- The loop over the path: a `/` goes in front of every segment but the first.
unfoldable pub push_segments : String → List String → String
push_segments out [] = out
push_segments out (segment ∷ path) = push_segments (out <> "/" <> segment) path

unfoldable pub push_path : String → List String → String
unfolding push_segments
push_path out [] = out
push_path out (segment ∷ path) = push_segments (out <> segment) path <> "/"

unfoldable pub step_key : RunIdentity → String → Option ℕ → String
unfolding push_path render
step_key run node_id occurrence =
    push_path (run.run_key <> ":") run.path <> render node_id occurrence

-- `window.saturating_mul(1000)`, for the positive windows that reach it
abbrev pub saturating_thousand : ℤ → ℤ
saturating_thousand (pos n) =
    if leb (n * 1000) (2 ^ 63 - 1) then pos (n * 1000) else pos (2 ^ 63 - 1)
saturating_thousand (negsuc n) = negsuc n

-- `elapsed_ms <= window.saturating_mul(1000)`
unfoldable pub within_window : RunIdentity → ℤ → ℤ → Bool
within_window run now_millis window =
    if ltb_ℤ (pos 0) window
    then (if ltb_ℤ (saturating_thousand window) (saturating_sub now_millis run.first_attempt_at)
        then false
        else true)
    else false

unfoldable pub is_replay_safe : RunIdentity → ℤ → Option ℤ → Bool
unfolding within_window
is_replay_safe run now_millis window_seconds =
    if leb run.attempt 1
    then true
    else elim window_seconds [ none ↦ true | some window ↦ within_window run now_millis window ]
