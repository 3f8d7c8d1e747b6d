-- ===== src/Provider/Body/ToAnthropic.antt =====
-- TranslateChatToAnthropic (internal/provider/translate_anthropic.go) and ExtractChatEffort
-- (internal/provider/reasoning.go). `to_lower` is strings.ToLower, `marshal` and `unmarshal` are those of
-- encoding/json, and `random_hex_id m n` is what the draw for the n-th call of the m-th message yields.
pub mod Turns
use pogu.Prelude.{
  ℕ, ◌+◌, List, [], ◌∷◌, ◌++◌, Option, none, some, Bool, true, false, ◌||◌, if◌then◌else◌, Text,
  codes, eq_text, trim_space, map,
}
use pogu.Provider.Effort.{
  Effort, none_, normalize_effort, map_chat_effort_to_anthropic, effort_text,
}
use pogu.Provider.Json.{
  Json, null, bool, int, float, obj, str, Array, Object, list, object, as_object, of_fields, get,
  put, string_of, is_nil, at, text,
}
use pogu.Provider.Body.Chat.{
  ChatRequest, ChatToolCall, join, newline, unless_empty, object_of, instructions_text,
  tool_calls_of,
}
use pogu.Provider.Body.Blocks.{
  chat_content_to_anthropic, tool_result_content, tool_arguments, chat_tool_choice_to_anthropic,
  chat_stop_to_anthropic,
}

-- A message of the result: the map of role and content.
pub record Turn : Type 0 where
  pub role : Text
  pub content : Array

-- The blocks go to the last message if it has the role, else they are a message of their own.
unfoldable pub add_turn : Text → Array → List Turn → List Turn
add_turn role blocks [] = record { role = role; content = blocks } ∷ []
add_turn role blocks (t ∷ []) =
    if eq_text t.role role
    then record t { content = t.content ++ blocks } ∷ []
    else t ∷ record { role = role; content = blocks } ∷ []
add_turn role blocks (t ∷ u ∷ ts) = t ∷ add_turn role blocks (u ∷ ts)

unfoldable pub flush : Text → Array → List Turn → List Turn
unfolding add_turn
flush role [] turns = turns
flush role (b ∷ blocks) turns = add_turn role (b ∷ blocks) turns

abbrev pub user : Text
user = codes "user"

abbrev pub assistant : Text
assistant = codes "assistant"

module _ (to_lower : Text → Text) where
  unfoldable pub extract_chat_effort : ChatRequest → Option Effort
  extract_chat_effort in_ =
      let nested : Option Effort = elim in_.reasoning [
        | obj m ↦ normalize_effort to_lower (string_of (get (codes "effort") (of_fields m)))
        | _ ↦ none
      ] in
      elim in_.reasoning_effort [
        | none ↦ nested
        | some e ↦ elim (normalize_effort to_lower e) [ some level ↦ some level | none ↦ nested ]
      ]

module _ (marshal : Json → Text) (unmarshal : Text → Option Json)
    (random_hex_id : ℕ → ℕ → Text) where
  abbrev pub tool_use_block : ChatToolCall → Json
  tool_use_block tc = object (
      at "type" (text "tool_use")
      ∷ at "id" (str tc.id)
      ∷ at "name" (str tc.name)
      ∷ at "input" (tool_arguments unmarshal tc.arguments)
      ∷ [])

  abbrev pub tool_result_block : Object → Json
  tool_result_block msg = object (
      at "type" (text "tool_result")
      ∷ at "tool_use_id" (str (string_of (get (codes "tool_call_id") msg)))
      ∷ at "content" (tool_result_content marshal (get (codes "content") msg))
      ∷ [])

  abbrev pub spoken_blocks : ℕ → Object → Array
  spoken_blocks m msg =
      chat_content_to_anthropic (get (codes "content") msg)
      ++ map tool_use_block (tool_calls_of (random_hex_id m) msg)

  -- One round of the loop over the messages: the texts of the system and the messages so far.
  unfoldable pub add_message : ℕ → Object → List Text × List Turn → List Text × List Turn
  unfolding flush
  add_message m msg (system, turns) =
      let role = string_of (get (codes "role") msg) in
      if eq_text role (codes "system") || eq_text role (codes "developer")
      then (system ++ unless_empty (instructions_text (get (codes "content") msg)), turns)
      else if eq_text role user || eq_text role assistant
      then (system, flush role (spoken_blocks m msg) turns)
      else if eq_text role (codes "tool")
      then (system, flush user (tool_result_block msg ∷ []) turns)
      else (system, turns)

  unfoldable pub add_messages : ℕ → List Object → List Text × List Turn → List Text × List Turn
  unfolding add_message
  add_messages m [] built = built
  add_messages m (msg ∷ msgs) built = add_messages (m + 1) msgs (add_message m msg built)

abbrev pub turn_json : Turn → Json
turn_json t = object (at "role" (str t.role) ∷ at "content" (list t.content) ∷ [])

-- schema, nil where it is no object: the schema of no parameters
abbrev pub schema_of : Json → Json
schema_of (obj o) = obj o
schema_of _ = object (at "type" (text "object") ∷ at "properties" (object []) ∷ [])

-- decl["description"] is set where there is one.
abbrev pub with_description : Text → Object → Object
with_description desc decl =
    if eq_text desc [] then decl else decl ++ at "description" (str desc) ∷ []

unfoldable pub anthropic_tool : Object → Array
anthropic_tool tool =
    let fn : Object = elim (as_object (get (codes "function") tool)) [ none ↦ tool | some f ↦ f ] in
    let name = trim_space (string_of (get (codes "name") fn)) in
    if eq_text name []
    then []
    else object (
        with_description (string_of (get (codes "description") fn))
          (at "name" (str name) ∷ at "input_schema" (schema_of (get (codes "parameters") fn)) ∷ []))
      ∷ []

unfoldable pub anthropic_tools : List Object → Array
unfolding anthropic_tool
anthropic_tools [] = []
anthropic_tools (t ∷ ts) = anthropic_tool t ++ anthropic_tools ts

-- out[key] = value where there is a value.
abbrev pub set_if : Text → Option Json → Object → Object
set_if key none out = out
set_if key (some j) out = put key j out

abbrev pub float_or : Option Text → Option Json
float_or none = none
float_or (some x) = some (float x)

abbrev pub non_empty : Array → Option Json
non_empty [] = none
non_empty (j ∷ js) = some (list (j ∷ js))

abbrev pub system_field : List Text → Option Json
system_field [] = none
system_field (t ∷ ts) = some (str (join newline (t ∷ ts)))

-- The first that is given, else defaultAnthropicMaxTokens.
abbrev pub max_tokens_of : ChatRequest → ℕ
max_tokens_of in_ = elim in_.max_tokens [
  | some n ↦ n
  | none ↦ elim in_.max_completion_tokens [
    | some n ↦ n
    | none ↦ elim in_.max_output_tokens [ some n ↦ n | none ↦ 4096 ]
  ]
]

abbrev pub set_thinking : Option Effort → Object → Object
set_thinking none out = out
set_thinking (some none_) out =
    put (codes "thinking") (object (at "type" (text "disabled") ∷ [])) out
set_thinking (some effort) out =
    put (codes "output_config")
      (object (at "effort" (str (effort_text (map_chat_effort_to_anthropic effort))) ∷ []))
      (put (codes "thinking") (object (at "type" (text "adaptive") ∷ [])) out)

module _ (to_lower : Text → Text) (marshal : Json → Text) (unmarshal : Text → Option Json)
    (random_hex_id : ℕ → ℕ → Text) where
  -- The object that is marshaled.
  unfoldable pub chat_to_anthropic : ChatRequest → Bool → Object
  unfolding add_messages anthropic_tools
  chat_to_anthropic in_ stream =
      let (system, turns) = add_messages marshal unmarshal random_hex_id 0 in_.messages ([], []) in
      let tool_choice : Option Json =
        if is_nil in_.tool_choice
        then none
        else some (chat_tool_choice_to_anthropic in_.tool_choice) in
      set_thinking (extract_chat_effort to_lower in_) (
        set_if (codes "stop_sequences") (chat_stop_to_anthropic in_.stop) (
          set_if (codes "top_p") (float_or in_.top_p) (
            set_if (codes "temperature") (float_or in_.temperature) (
              set_if (codes "tool_choice") tool_choice (
                set_if (codes "tools") (non_empty (anthropic_tools in_.tools)) (
                  put (codes "messages") (list (map turn_json turns)) (
                    set_if (codes "system") (system_field system) (
                      at "model" (str in_.model)
                      ∷ at "max_tokens" (int (max_tokens_of in_))
                      ∷ at "stream" (bool stream)
                      ∷ []))))))))

  unfoldable pub translate_chat_to_anthropic : Option ChatRequest → Bool → Option Json
  unfolding chat_to_anthropic
  translate_chat_to_anthropic none stream = none
  translate_chat_to_anthropic (some in_) stream = some (object (chat_to_anthropic in_ stream))
