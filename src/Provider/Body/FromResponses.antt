-- ===== src/Provider/Body/FromResponses.antt =====
-- TranslateResponsesToChat (internal/provider/translate_responses.go). `random_hex_id n` is what the n-th draw
-- of the items yields, `hex_id` that for the completion, `now` the Unix time.
use pogu.Prelude.{
  ℕ, ◌+◌, ◌%◌, ◌^◌, List, [], ◌∷◌, ◌++◌, Option, none, some, ◌||◌, if◌then◌else◌, Text, codes,
  eq_text, trim_space,
}
use pogu.Provider.Json.{Json, str, Array, object, at, text, int_or_null}
use pogu.Provider.Usage.{or_else}
use pogu.Provider.Stream.FromResponses.{Argument, arguments_string}
use pogu.Provider.Body.Chat.{unless_empty, or_text}
use pogu.Provider.Body.ToAnthropic.{set_if}
use pogu.Provider.Body.Objects.{Said, nothing_said, message_of, completion_json}

pub record OutputContent : Type 0 where
  pub type : Text
  pub text : Text

pub record OutputItem : Type 0 where
  pub type : Text
  pub content : List OutputContent
  pub summary : List Text
  pub call_id : Text
  pub name : Text
  pub arguments : Argument
  pub input : Argument

pub record OutputUsage : Type 0 where
  pub input_tokens : Option ℕ
  pub prompt_tokens : Option ℕ
  pub output_tokens : Option ℕ
  pub completion_tokens : Option ℕ
  pub total_tokens : Option ℕ

pub record ResponsesObject : Type 0 where
  pub id : Text
  pub model : Text
  pub status : Text
  pub error : Option Text
  pub output : List OutputItem
  pub usage : Option OutputUsage

abbrev pub output_texts : List OutputContent → List Text
output_texts [] = []
output_texts (c ∷ cs) =
    let rest = output_texts cs in
    if eq_text c.type (codes "output_text") then unless_empty c.text ++ rest else rest

abbrev pub summary_texts : List Text → List Text
summary_texts [] = []
summary_texts (t ∷ ts) = unless_empty t ++ summary_texts ts

-- One round of the loop over the output.
say_item : Text → OutputItem → Said → Said
unfolding arguments_string
say_item hex_id item s =
    if eq_text item.type (codes "message")
    then record s { texts = s.texts ++ output_texts item.content }
    else if eq_text item.type (codes "reasoning")
    then record s { reasoning = s.reasoning ++ summary_texts item.summary }
    else if eq_text item.type (codes "function_call")
        || eq_text item.type (codes "custom_tool_call")
    then if eq_text (trim_space item.name) [] then s else record s {
      tool_calls =
          s.tool_calls
          ++ object (
              at "id" (str (or_text item.call_id (codes "call_" ++ hex_id)))
              ∷ at "type" (text "function")
              ∷ at "function" (
                  object (
                    at "name" (str item.name)
                    ∷ at "arguments" (str (arguments_string item.arguments item.input))
                    ∷ []))
              ∷ [])
            ∷ [];
    }
    else s

say_items : (ℕ → Text) → ℕ → List OutputItem → Said → Said
unfolding say_item
say_items random_hex_id n [] s = s
say_items random_hex_id n (item ∷ items) s =
    say_items random_hex_id (n + 1) items (say_item (random_hex_id n) item s)

abbrev pub responses_finish : Text → Array → Text
responses_finish status (c ∷ cs) = codes "tool_calls"
responses_finish status [] =
    if eq_text status (codes "incomplete") then codes "length" else codes "stop"

-- The sum, where no total is given and both counts are.
abbrev pub responses_total : Option ℕ → Option ℕ → Option ℕ → Option ℕ
responses_total (some t) prompt completion = some t
responses_total none (some p) (some c) = some ((p + c) % 2 ^ 64)
responses_total none none completion = none
responses_total none (some p) none = none

abbrev pub responses_usage_json : Option OutputUsage → Option Json
responses_usage_json none = none
responses_usage_json (some u) =
    let prompt = or_else u.input_tokens u.prompt_tokens in
    let completion = or_else u.output_tokens u.completion_tokens in
    some (
      object (
        at "prompt_tokens" (int_or_null prompt)
        ∷ at "completion_tokens" (int_or_null completion)
        ∷ at "total_tokens" (int_or_null (responses_total u.total_tokens prompt completion))
        ∷ []))

-- None for a body that does not decode, and for one with the message of an error.
unfoldable pub translate_responses_to_chat :
    (ℕ → Text) → Text → ℕ → Option ResponsesObject → Option Json
unfolding say_items
translate_responses_to_chat random_hex_id hex_id now none = none
translate_responses_to_chat random_hex_id hex_id now (some in_) =
    let said = say_items random_hex_id 0 in_.output nothing_said in
    let out = some (
      object (
        set_if (codes "usage") (responses_usage_json in_.usage) (
          completion_json (or_text in_.id (codes "chatcmpl-" ++ hex_id)) now in_.model
            (message_of said) (responses_finish in_.status said.tool_calls)))) in
    elim in_.error [ none ↦ out | some message ↦ if eq_text message [] then out else none ]
