-- ===== src/Tests/Body.antt =====
-- Runs of the translations of bodies.
use pogu.Prelude.{
  ℕ, ◌≡◌, refl, List, [], ◌∷◌, Option, none, some, if◌then◌else◌, true, Text, codes, eq_text, map,
}
use pogu.Provider.Json.{Json, float, str, Array, Object, list, object, get, at, text, null}
use pogu.Provider.Stream.FromAnthropic.{anthropic_stop_to_chat}
use pogu.Provider.Body.Chat.{ChatRequest, message_text}
use pogu.Provider.Body.Blocks.{tool_arguments}
use pogu.Provider.Body.ToAnthropic.{Turn, turn_json, chat_to_anthropic, user, assistant}
use pogu.Provider.Body.ToAnthropic.Turns.{Follow, chat_to_anthropic-Follow}
use pogu.Provider.Body.ToChat.{objects_in}
use pogu.Provider.Body.Objects.{
  CompletionCall, CompletionChoice, completion_content, completion_stop, say_all, nothing_said,
  message_of, finish_of,
}
use pogu.Provider.Body.Objects.RoundTrip.{
  completion_message, kept_finish, same_call, IsCanonical, say_all-completion_content,
}
use pogu.Provider.Body.ToResponses.{add_inputs, normalize_responses_token_budget, token_budget}
use pogu.Provider.Body.ToResponses.Calls.{
  ids_of, calls, results, all_calls, all_results, add_inputs-ids,
}

abbrev marshal : Json → Text
marshal (str s) = s
marshal _ = codes "{}"

abbrev unmarshal : Text → Option Json
unmarshal s = if eq_text s (codes "{}") then some (object []) else none

abbrev draw : ℕ → ℕ → Text
draw m n = codes "00"

abbrev says : Text → Text → Object
says role content = at "role" (str role) ∷ at "content" (str content) ∷ []

abbrev system : Object
system = says (codes "system") (codes "Be brief.")

abbrev asks_tool : Object
asks_tool =
    at "role" (str assistant)
    ∷ at "tool_calls" (
        list (
          object (at "id" (text "c1") ∷ at "function" (object (at "name" (text "ls") ∷ [])) ∷ [])
          ∷ []))
    ∷ []

abbrev tool_says : Object
tool_says =
    at "role" (text "tool") ∷ at "tool_call_id" (text "c1") ∷ at "content" (text "a.txt") ∷ []

abbrev talk : List Object
talk =
    system
    ∷ says user (codes "List the files.")
    ∷ asks_tool
    ∷ tool_says
    ∷ says user (codes "Thanks.")
    ∷ []

abbrev request : ChatRequest
request = record {
  model = codes "glm-5";
  messages = talk;
  tools = [];
  tool_choice = null;
  temperature = none;
  top_p = none;
  max_tokens = none;
  max_completion_tokens = some 9;
  max_output_tokens = none;
  reasoning_effort = none;
  reasoning = null;
  service_tier = none;
  response_format = null;
  stop = null;
  input = null;
}

chat_to_anthropic-Follow_example :
    (turns : List Turn) × (get
        (codes "messages")
        (chat_to_anthropic (λ s. s) marshal unmarshal draw request true)
      ≡ list (map turn_json turns))
    × Follow none turns
chat_to_anthropic-Follow_example =
    chat_to_anthropic-Follow (λ s. s) marshal unmarshal draw request true

add_inputs-ids_example :
    (let (_, input) = add_inputs marshal draw 0 talk (none, []) in
      (ids_of calls input ≡ all_calls marshal draw 0 talk)
      × (ids_of results input ≡ all_results marshal draw talk))
add_inputs-ids_example = add_inputs-ids marshal draw 0 talk none []

abbrev call : CompletionCall
call = record { id = codes "c1"; name = codes "ls"; arguments = codes "{}" }

abbrev choice : CompletionChoice
choice = record {
  content = text "Looking.";
  tool_calls = call ∷ [];
  finish_reason = some (codes "tool_calls");
}

call-IsCanonical : IsCanonical marshal unmarshal call
unfolding tool_arguments eq_text
call-IsCanonical = refl

say_all-completion_content_example :
    (let said = say_all marshal (objects_in (completion_content unmarshal choice)) nothing_said in
      (message_of said
        ≡ completion_message (message_text (text "Looking.")) (same_call marshal call ∷ []))
      × (finish_of (some (completion_stop (some (codes "tool_calls")))) said.tool_calls
          ≡ kept_finish (some (codes "tool_calls")) (same_call marshal call ∷ [])))
say_all-completion_content_example =
    say_all-completion_content marshal unmarshal choice (call-IsCanonical, tt)

abbrev entry : Json
entry = text "preferences"

abbrev raw : Array
raw = object system ∷ object (says user (codes "Hi.")) ∷ []

-- The legacy limit wins in a native body, and loses in a chat request.
native_budget :
    get (codes "max_output_tokens") (
      normalize_responses_token_budget (
        at "max_tokens" (float (codes "10"))
        ∷ at "max_completion_tokens" (float (codes "20"))
        ∷ []))
    ≡ float (codes "10")
unfolding normalize_responses_token_budget eq_text
native_budget = refl

chat_budget : token_budget none (some 20) (some 10) ≡ some 20
unfolding token_budget
chat_budget = refl

-- A refusal is content_filter in a stream, and stop in a single body.
refused_stream : anthropic_stop_to_chat (codes "refusal") ≡ codes "content_filter"
unfolding anthropic_stop_to_chat eq_text
refused_stream = refl

refused_body : finish_of (some (codes "refusal")) [] ≡ codes "stop"
unfolding eq_text
refused_body = refl
