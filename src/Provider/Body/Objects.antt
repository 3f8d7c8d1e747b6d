-- ===== src/Provider/Body/Objects.antt =====
-- TranslateAnthropicToChatObject and TranslateChatToAnthropicObject
-- (internal/provider/translate_anthropic.go). `hex_id` is what randomHexID yields, `now` the Unix time.
pub mod RoundTrip
use pogu.Prelude.{
  ℕ, ◌+◌, ◌%◌, ◌^◌, List, [], ◌∷◌, ◌++◌, Option, none, some, Bool, ◌||◌, if◌then◌else◌, Text, codes,
  eq_text, map,
}
use pogu.Provider.Json.{
  Json, null, int, str, Array, Object, list, object, get, put, string_of, at, text, int_or_null,
}
use pogu.Provider.Usage.{MessageUsage}
use pogu.Provider.Body.Chat.{join, newline, unless_empty, or_text, message_text}
use pogu.Provider.Body.Blocks.{kind_of, text_blocks, tool_arguments}
use pogu.Provider.Body.ToAnthropic.{set_if}
use pogu.Provider.Body.ToChat.{arguments_of, call_json}

pub record AnthropicMessage : Type 0 where
  pub id : Text
  pub model : Text
  pub stop_reason : Option Text
  pub content : List Object
  pub usage : Option MessageUsage

-- The texts, the thoughts and the calls of a message.
pub record Said : Type 0 where
  pub texts : List Text
  pub reasoning : List Text
  pub tool_calls : Array

abbrev pub nothing_said : Said
nothing_said = record { texts = []; reasoning = []; tool_calls = [] }

module _ (marshal : Json → Text) where
  -- One round of the loop over the content.
  unfoldable pub say : Object → Said → Said
  say b s =
      if eq_text (kind_of b) (codes "text")
      then record s { texts = s.texts ++ unless_empty (string_of (get (codes "text") b)) }
      else if eq_text (kind_of b) (codes "thinking")
          || eq_text (kind_of b) (codes "redacted_thinking")
      then record s {
        reasoning = s.reasoning ++ unless_empty (string_of (get (codes "thinking") b));
      }
      else if eq_text (kind_of b) (codes "tool_use")
      then record s {
        tool_calls =
            s.tool_calls
            ++ call_json marshal (string_of (get (codes "id") b)) (string_of (get (codes "name") b))
                (arguments_of marshal (get (codes "input") b))
              ∷ [];
      }
      else s

  unfoldable pub say_all : List Object → Said → Said
  unfolding say
  say_all [] s = s
  say_all (b ∷ bs) s = say_all bs (say b s)

abbrev pub message_of : Said → Object
message_of s =
    let spoken = str (join [] s.texts) in
    let with_calls : Object = elim s.tool_calls [
      | [] ↦ at "role" (text "assistant") ∷ at "content" spoken ∷ []
      | c ∷ cs ↦
          at "role" (text "assistant")
          ∷ at "content" (elim s.texts [ [] ↦ null | t ∷ ts ↦ spoken ])
          ∷ at "tool_calls" (list (c ∷ cs))
          ∷ []
    ] in
    set_if (codes "reasoning_content")
      (elim s.reasoning [ [] ↦ none | r ∷ rs ↦ some (str (join newline (r ∷ rs))) ]) with_calls

abbrev pub finish_of : Option Text → Array → Text
finish_of stop_reason (c ∷ cs) = codes "tool_calls"
finish_of none [] = codes "stop"
finish_of (some reason) [] =
    if eq_text reason (codes "max_tokens")
    then codes "length"
    else if eq_text reason (codes "tool_use")
    then codes "tool_calls"
    else codes "stop"

abbrev pub total_tokens : Option ℕ → Option ℕ → Json
total_tokens (some i) (some o) = int ((i + o) % 2 ^ 64)
total_tokens none o = null
total_tokens (some i) none = null

abbrev pub chat_usage_json : Option MessageUsage → Option Json
chat_usage_json none = none
chat_usage_json (some u) = some (
    object (
      at "prompt_tokens" (int_or_null u.input_tokens)
      ∷ at "completion_tokens" (int_or_null u.output_tokens)
      ∷ at "total_tokens" (total_tokens u.input_tokens u.output_tokens)
      ∷ []))

abbrev pub completion_json : Text → ℕ → Text → Object → Text → Object
completion_json id now model message finish =
    at "id" (str id)
    ∷ at "object" (text "chat.completion")
    ∷ at "created" (int now)
    ∷ at "model" (str model)
    ∷ at "choices" (
        list (
          object (
            at "index" (int 0)
            ∷ at "message" (object message)
            ∷ at "finish_reason" (str finish)
            ∷ [])
          ∷ []))
    ∷ []

unfoldable pub translate_anthropic_to_chat_object :
    (Json → Text) → Text → ℕ → Option AnthropicMessage → Option Json
unfolding say_all
translate_anthropic_to_chat_object marshal hex_id now none = none
translate_anthropic_to_chat_object marshal hex_id now (some in_) =
    let said = say_all marshal in_.content nothing_said in
    some (
      object (
        set_if (codes "usage") (chat_usage_json in_.usage) (
          completion_json (codes "chatcmpl-" ++ hex_id) now in_.model (message_of said)
            (finish_of in_.stop_reason said.tool_calls))))

pub record CompletionCall : Type 0 where
  pub id : Text
  pub name : Text
  pub arguments : Text

pub record CompletionChoice : Type 0 where
  pub content : Json
  pub tool_calls : List CompletionCall
  pub finish_reason : Option Text

pub record CompletionUsage : Type 0 where
  pub prompt_tokens : Option ℕ
  pub completion_tokens : Option ℕ

pub record ChatCompletion : Type 0 where
  pub model : Text
  pub choices : List CompletionChoice
  pub usage : Option CompletionUsage

abbrev pub completion_call_block : (Text → Option Json) → CompletionCall → Object
completion_call_block unmarshal tc =
    at "type" (text "tool_use")
    ∷ at "id" (str tc.id)
    ∷ at "name" (str tc.name)
    ∷ at "input" (tool_arguments unmarshal tc.arguments)
    ∷ []

-- The content of the message: its text, unless it is empty, and its calls.
unfoldable pub completion_content : (Text → Option Json) → CompletionChoice → Array
completion_content unmarshal choice =
    text_blocks (message_text choice.content)
    ++ map (λ tc. object (completion_call_block unmarshal tc)) choice.tool_calls

unfoldable pub completion_stop : Option Text → Text
completion_stop none = codes "end_turn"
completion_stop (some reason) =
    if eq_text reason (codes "length")
    then codes "max_tokens"
    else if eq_text reason (codes "tool_calls")
    then codes "tool_use"
    else if eq_text reason (codes "content_filter")
    then codes "refusal"
    else codes "end_turn"

abbrev pub anthropic_usage_json : Option CompletionUsage → Option Json
anthropic_usage_json none = none
anthropic_usage_json (some u) = some (
    object (
      at "input_tokens" (int_or_null u.prompt_tokens)
      ∷ at "output_tokens" (int_or_null u.completion_tokens)
      ∷ []))

-- None too where there are no choices.
unfoldable pub translate_chat_to_anthropic_object :
    (Text → Option Json) → Text → Text → Option ChatCompletion → Option Json
unfolding completion_content completion_stop
translate_chat_to_anthropic_object unmarshal hex_id model none = none
translate_chat_to_anthropic_object unmarshal hex_id model (some in_) = elim in_.choices [
  | [] ↦ none
  | choice ∷ _ ↦ some (
      object (
        set_if (codes "usage") (anthropic_usage_json in_.usage) (
          at "id" (str (codes "msg_" ++ hex_id))
          ∷ at "type" (text "message")
          ∷ at "role" (text "assistant")
          ∷ at "model" (str (or_text model in_.model))
          ∷ at "content" (list (completion_content unmarshal choice))
          ∷ at "stop_reason" (str (completion_stop choice.finish_reason))
          ∷ at "stop_sequence" null
          ∷ [])))
]
