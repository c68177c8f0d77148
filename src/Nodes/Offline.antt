-- ===== src/Nodes/Offline.antt =====
-- nodes/support/clients.rs: the offline clients, which answer with what they are asked. What a client
-- records is its state.
use fancy_flow_rs.Prelude.{
  ℕ, pos, ◌+◌, List, [], ◌∷◌, ◌++◌, String, Bool, false, not, if◌then◌else◌, ◌&&◌, ◌||◌, ◌<>◌, leb,
  nat_beq,
}
use Prim.Native.Char.{Char, code}
use fancy_flow_rs.Platform.{Platform}
use fancy_flow_rs.Schema.{or_text}
use fancy_flow_rs.Schema.Json.{str_of}

abbrev is_word : Char → Bool
is_word c =
    (leb b'a' (code c) && leb (code c) b'z')
    || (leb b'A' (code c) && leb (code c) b'Z')
    || nat_beq (code c) b'\''
    || nat_beq (code c) b'-'

-- The runs of letters, apostrophes and hyphens, from inside or outside of one.
unfoldable pub count_words : Bool → String → ℕ
count_words inside String.[] = 0
count_words inside (String.◌∷◌ c s) =
    (if is_word c && not inside then 1 else 0) + count_words (is_word c) s

unfoldable pub word_count : String → ℕ
unfolding count_words
word_count s = count_words false s

module _ ⦃P : Platform⦄ where
  open P use {Value, Map, string, object, from_u64, from_i64, empty, insert, get}

  unfoldable pub echo_send : String → String → Map → Value → List Value → Value × List Value
  echo_send method url headers body requests =
      let record_map =
        insert
          (insert (insert (insert empty "method" (string method)) "url" (string url)) "headers"
            (object headers))
          "body" body in
      let echoed =
        insert (insert (insert empty "method" (string method)) "url" (string url)) "body" body in
      let response =
        insert (insert (insert empty "status" (from_i64 (pos 200))) "headers" (object headers))
          "body" (object (insert empty "echoed" (object echoed))) in
      (object response, requests ++ object record_map ∷ [])

  unfoldable pub echo_complete : String → Map → Value
  unfolding word_count
  echo_complete prompt options =
      let model = or_text (str_of (get options "model")) "echo" in
      let words = from_u64 (word_count prompt) in
      let usage = insert (insert empty "input_tokens" words) "output_tokens" words in
      object (
        insert (insert empty "text" (string ("[" <> model <> "] " <> prompt))) "usage"
          (object usage))

  unfoldable pub echo_invoke : String → Value → Value
  echo_invoke tool args = object (insert (insert empty "tool" (string tool)) "args" args)

  unfoldable pub empty_search : String → ℕ → List Value
  empty_search query limit = []

  unfoldable pub recording_notify : String → String → String → List Value → List Value
  recording_notify channel to message sent =
      sent
      ++ object (
          insert (insert (insert empty "channel" (string channel)) "to" (string to)) "message"
            (string message))
        ∷ []
