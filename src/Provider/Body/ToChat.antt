-- ===== src/Provider/Body/ToChat.antt =====
-- TranslateAnthropicToChat (internal/provider/translate_anthropic.go) and ExtractAnthropicEffort
-- (internal/provider/reasoning.go). `marshal` is json.Marshal, `random_hex_id m n` what the draw for the n-th
-- block of the m-th message yields; `to_lower` is strings.ToLower, `equal_fold` strings.EqualFold, and `atoi`
-- strconv.Atoi and `truncated` the int of a float64, both with 0 for a negative number.
use pogu.Prelude.{
  ℕ, ◌+◌, List, [], ◌∷◌, ◌++◌, Option, none, some, Bool, false, ◌||◌, ltb, any, ◌==◌, if◌then◌else◌,
  Text, codes, eq_text, trim_space, cut, map,
}
use pogu.Provider.Effort.{Effort, none_, normalize_effort, budget_to_level, effort_text}
use pogu.Provider.Json.{
  Json, null, bool, int, float, obj, arr, str, Array, Object, list, object, as_object, of_fields,
  of_items, get, string_of, is_nil, at, text,
}
use pogu.Provider.Body.Chat.{join, newline, unless_empty, or_text}
use pogu.Provider.Body.Blocks.{kind_of, text_block, chat_stop_to_anthropic}
use pogu.Provider.Body.ToAnthropic.{schema_of, with_description, set_if, float_or, non_empty}

pub record AnthropicRequest : Type 0 where
  pub model : Text
  pub system : Json
  pub messages : List Object
  pub tools : List Object
  pub tool_choice : Json
  pub max_tokens : Option ℕ
  pub temperature : Option Text
  pub top_p : Option Text
  pub stop : Json

abbrev pub system_texts : Array → List Text
system_texts [] = []
system_texts (obj m ∷ bs) =
    unless_empty (string_of (get (codes "text") (of_fields m))) ++ system_texts bs
system_texts (_ ∷ bs) = system_texts bs

unfoldable pub anthropic_system_text : Json → Text
anthropic_system_text (str s) = s
anthropic_system_text (arr bs) = join newline (system_texts (of_items bs))
anthropic_system_text _ = []

abbrev pub objects_in : Array → List Object
objects_in [] = []
objects_in (obj m ∷ js) = of_fields m ∷ objects_in js
objects_in (_ ∷ js) = objects_in js

unfoldable pub anthropic_content_blocks : Json → List Object
anthropic_content_blocks (str s) =
    if eq_text s [] then [] else (at "type" (text "text") ∷ at "text" (str s) ∷ []) ∷ []
anthropic_content_blocks (arr js) = objects_in (of_items js)
anthropic_content_blocks _ = []

-- "data:" + media + ";base64," + data
abbrev pub data_url : Text → Text → Text
data_url media payload = codes "data:" ++ (media ++ (codes ";base64," ++ payload))

abbrev pub image_url_part : Text → Json
image_url_part url =
    object (at "type" (text "image_url") ∷ at "image_url" (object (at "url" (str url) ∷ [])) ∷ [])

unfoldable pub chat_image_part : Json → Array
chat_image_part (obj source) =
    let m = of_fields source in
    let media = or_text (string_of (get (codes "media_type") m)) (codes "image/png") in
    let url = string_of (get (codes "url") m) in
    if eq_text (kind_of m) (codes "base64")
    then image_url_part (data_url media (string_of (get (codes "data") m))) ∷ []
    else if eq_text (kind_of m) (codes "url")
    then if eq_text url [] then [] else image_url_part url ∷ []
    else []
chat_image_part _ = []

unfoldable pub file_extension : Text → Text
file_extension media_type =
    let (_, ext, found) = cut b'/' media_type in
    if eq_text media_type (codes "application/pdf")
    then codes "pdf"
    else if eq_text media_type (codes "text/plain")
    then codes "txt"
    else if found
    then if any (λ c. c == b'/') ext then codes "bin" else ext
    else codes "bin"

abbrev pub file_part : Object → Json
file_part file = object (at "type" (text "file") ∷ at "file" (object file) ∷ [])

unfoldable pub chat_file_part : Object → Array
unfolding file_extension
chat_file_part b = elim (get (codes "source") b) [
  | obj source ↦
      let src = of_fields source in
      let media = or_text (string_of (get (codes "media_type") src)) (codes "application/pdf") in
      let id = string_of (get (codes "file_id") src) in
      if eq_text (kind_of src) (codes "base64")
      then file_part (
          at "file_data" (str (data_url media (string_of (get (codes "data") src))))
          ∷ at "filename" (str (codes "document." ++ file_extension media))
          ∷ [])
        ∷ []
      else if eq_text (kind_of src) (codes "file")
      then if eq_text id [] then [] else file_part (at "file_id" (str id) ∷ []) ∷ []
      else []
  | _ ↦ []
]

-- The variables of the two loops over blocks: texts, media, and what only a message has.
pub record Parts : Type 0 where
  pub texts : List Text
  pub media : Array
  pub tool_calls : Array
  pub reasoning : List Text
  pub tool_messages : Array

abbrev pub no_parts : Parts
no_parts = record { texts = []; media = []; tool_calls = []; reasoning = []; tool_messages = [] }

result_part : Object → Parts → Parts
unfolding chat_image_part chat_file_part
result_part b p =
    if eq_text (kind_of b) (codes "text")
    then record p { texts = p.texts ++ unless_empty (string_of (get (codes "text") b)) }
    else if eq_text (kind_of b) (codes "image")
    then record p { media = p.media ++ chat_image_part (get (codes "source") b) }
    else if eq_text (kind_of b) (codes "document")
    then record p { media = p.media ++ chat_file_part b }
    else p

result_parts : List Object → Parts → Parts
unfolding result_part
result_parts [] p = p
result_parts (b ∷ bs) p = result_parts bs (result_part b p)

-- The parts of a text part each.
abbrev pub text_parts : List Text → Array
text_parts ts = map text_block ts

-- blocks == nil: neither a text that is not empty nor a list with an object
unfoldable pub chat_tool_result_content : Json → Json
unfolding anthropic_content_blocks result_parts
chat_tool_result_content content = elim (anthropic_content_blocks content) [
  | [] ↦ content
  | b ∷ bs ↦
      let p = result_parts (b ∷ bs) no_parts in
      elim p.media [
        | [] ↦ str (join newline p.texts)
        | m ∷ ms ↦ list (text_parts p.texts ++ m ∷ ms)
      ]
]

module _ (marshal : Json → Text) where
  -- The arguments of a call: its input, or none.
  abbrev pub arguments_of : Json → Text
  arguments_of input = if is_nil input then codes "{}" else marshal input

  abbrev pub call_json : Text → Text → Text → Json
  call_json id name arguments = object (
      at "id" (str id)
      ∷ at "type" (text "function")
      ∷ at "function" (object (at "name" (str name) ∷ at "arguments" (str arguments) ∷ []))
      ∷ [])

  abbrev pub tool_message : Object → Json
  tool_message b =
      let content : Json = elim (chat_tool_result_content (get (codes "content") b)) [
        | str s ↦ str (or_text s (marshal (get (codes "content") b)))
        | other ↦ other
      ] in
      object (
        at "role" (text "tool")
        ∷ at "tool_call_id" (str (string_of (get (codes "tool_use_id") b)))
        ∷ at "content" content
        ∷ [])

  -- One round of the loop over a message's blocks; `hex_id` is the draw for it.
  unfoldable pub message_part : Text → Object → Parts → Parts
  unfolding chat_image_part chat_file_part
  message_part hex_id b p =
      let name = trim_space (string_of (get (codes "name") b)) in
      if eq_text (kind_of b) (codes "text")
      then record p { texts = p.texts ++ unless_empty (string_of (get (codes "text") b)) }
      else if eq_text (kind_of b) (codes "image")
      then record p { media = p.media ++ chat_image_part (get (codes "source") b) }
      else if eq_text (kind_of b) (codes "document")
      then record p { media = p.media ++ chat_file_part b }
      else if eq_text (kind_of b) (codes "tool_use")
      then if eq_text name [] then p else record p {
        tool_calls =
            p.tool_calls
            ++ call_json (or_text (string_of (get (codes "id") b)) (codes "call_" ++ hex_id)) name
                (arguments_of (get (codes "input") b))
              ∷ [];
      }
      else if eq_text (kind_of b) (codes "tool_result")
      then record p { tool_messages = p.tool_messages ++ tool_message b ∷ [] }
      else if eq_text (kind_of b) (codes "thinking")
          || eq_text (kind_of b) (codes "redacted_thinking")
      then record p {
        reasoning = p.reasoning ++ unless_empty (string_of (get (codes "thinking") b));
      }
      else p

  unfoldable pub message_parts : (ℕ → Text) → ℕ → List Object → Parts → Parts
  unfolding message_part
  message_parts hex_id n [] p = p
  message_parts hex_id n (b ∷ bs) p = message_parts hex_id (n + 1) bs (message_part (hex_id n) b p)

-- The content of a chat message: nil without parts, a single text by itself, else the parts.
abbrev pub chat_content : Array → Json
chat_content [] = null
chat_content (obj p ∷ []) =
    let m = of_fields p in
    if eq_text (kind_of m) (codes "text")
    then str (string_of (get (codes "text") m))
    else list (obj p ∷ [])
chat_content parts = list parts

abbrev pub spoken : Text → Array → Parts → Object
spoken role parts p =
    set_if (codes "reasoning_content")
      (elim p.reasoning [ [] ↦ none | r ∷ rs ↦ some (str (join newline (r ∷ rs))) ])
      (set_if (codes "tool_calls") (non_empty p.tool_calls)
        (at "role" (str role) ∷ at "content" (chat_content parts) ∷ []))

-- The messages for one message: what was said, then the results of tools.
unfoldable pub messages_of : Text → Parts → Array
messages_of role p =
    let parts = p.media ++ text_parts p.texts in
    (elim parts [
      | q ∷ qs ↦ object (spoken role (q ∷ qs) p) ∷ []
      | [] ↦ elim p.tool_calls [
        | c ∷ cs ↦ object (spoken role [] p) ∷ []
        | [] ↦ elim p.reasoning [ r ∷ rs ↦ object (spoken role [] p) ∷ [] | [] ↦ [] ]
      ]
    ])
    ++ p.tool_messages

module _ (marshal : Json → Text) (random_hex_id : ℕ → ℕ → Text) where
  unfoldable pub chat_messages_of : ℕ → Object → Array
  unfolding messages_of message_parts anthropic_content_blocks
  chat_messages_of m msg =
      let role = string_of (get (codes "role") msg) in
      if eq_text role (codes "user") || eq_text role (codes "assistant")
      then messages_of role (
          message_parts marshal (random_hex_id m) 0
            (anthropic_content_blocks (get (codes "content") msg)) no_parts)
      else []

  unfoldable pub chat_messages : ℕ → List Object → Array
  unfolding chat_messages_of
  chat_messages m [] = []
  chat_messages m (msg ∷ msgs) = chat_messages_of m msg ++ chat_messages (m + 1) msgs

unfoldable pub chat_tool : Object → Array
chat_tool tool =
    let name = trim_space (string_of (get (codes "name") tool)) in
    if eq_text name []
    then []
    else object (
        at "type" (text "function")
        ∷ at "function" (
            object (
              with_description (string_of (get (codes "description") tool)) (
                at "name" (str name)
                ∷ at "parameters" (schema_of (get (codes "input_schema") tool))
                ∷ [])))
        ∷ [])
      ∷ []

unfoldable pub chat_tools : List Object → Array
unfolding chat_tool
chat_tools [] = []
chat_tools (t ∷ ts) = chat_tool t ++ chat_tools ts

unfoldable pub anthropic_tool_choice_to_chat : Json → Json
anthropic_tool_choice_to_chat (obj choice) =
    let m = of_fields choice in
    let name = string_of (get (codes "name") m) in
    if eq_text (kind_of m) (codes "any")
    then text "required"
    else if eq_text (kind_of m) (codes "tool")
    then if eq_text name []
      then text "auto"
      else object
          (at "type" (text "function") ∷ at "function" (object (at "name" (str name) ∷ [])) ∷ [])
    else if eq_text (kind_of m) (codes "none") || eq_text (kind_of m) (codes "auto")
    then str (kind_of m)
    else text "auto"
anthropic_tool_choice_to_chat _ = text "auto"

module _ (to_lower : Text → Text) (equal_fold : Text → Text → Bool) (atoi : Text → Option ℕ)
    (truncated : Text → ℕ) where
  abbrev pub budget_tokens : Json → ℕ
  budget_tokens (int n) = n
  budget_tokens (float x) = truncated x
  budget_tokens (str s) = elim (atoi (trim_space s)) [ none ↦ 0 | some n ↦ n ]
  budget_tokens _ = 0

  -- The effort that `thinking` asks for.
  thinking_effort : Object → Option Effort
  thinking_effort th =
      let kind = to_lower (trim_space (kind_of th)) in
      let budget = budget_tokens (get (codes "budget_tokens") th) in
      if eq_text kind (codes "disabled")
      then some none_
      else if eq_text kind (codes "adaptive") || eq_text kind (codes "enabled")
      then elim (normalize_effort to_lower (string_of (get (codes "effort") th))) [
        | some level ↦ some level
        | none ↦ if ltb 0 budget then some (budget_to_level budget) else none
      ]
      else none

  -- On the body as a map.
  unfoldable pub extract_anthropic_effort : Object → Option Effort
  unfolding thinking_effort
  extract_anthropic_effort raw =
      let th : Option Object = as_object (get (codes "thinking") raw) in
      let disabled : Bool = elim th [
        | none ↦ false
        | some t ↦ equal_fold (trim_space (kind_of t)) (codes "disabled")
      ] in
      let by_thinking : Option Effort = elim th [ none ↦ none | some t ↦ thinking_effort t ] in
      if disabled then some none_ else elim (as_object (get (codes "output_config") raw)) [
        | none ↦ by_thinking
        | some oc ↦
            let effort = string_of (get (codes "effort") oc) in
            elim (normalize_effort to_lower effort) [
              | some level ↦ some level
              | none ↦ if equal_fold (trim_space effort) (codes "auto") then none else by_thinking
            ]
      ]

abbrev pub int_or : Option ℕ → Option Json
int_or none = none
int_or (some n) = some (int n)

abbrev pub effort_or : Option Effort → Option Json
effort_or none = none
effort_or (some e) = some (str (effort_text e))

module _ (marshal : Json → Text) (random_hex_id : ℕ → ℕ → Text) where
  -- The object that is marshaled; `effort` is what ExtractAnthropicEffort finds in the body.
  unfoldable pub anthropic_to_chat : AnthropicRequest → Option Effort → Bool → Object
  unfolding anthropic_system_text chat_messages chat_tools
  anthropic_to_chat in_ effort stream =
      let system = anthropic_system_text in_.system in
      let first : Array =
        if eq_text system []
        then []
        else object (at "role" (text "system") ∷ at "content" (str system) ∷ []) ∷ [] in
      let tool_choice : Option Json =
        if is_nil in_.tool_choice
        then none
        else some (anthropic_tool_choice_to_chat in_.tool_choice) in
      set_if (codes "reasoning_effort") (effort_or effort) (
        set_if (codes "stop") (chat_stop_to_anthropic in_.stop) (
          set_if (codes "top_p") (float_or in_.top_p) (
            set_if (codes "temperature") (float_or in_.temperature) (
              set_if (codes "max_tokens") (int_or in_.max_tokens) (
                set_if (codes "tool_choice") tool_choice (
                  set_if (codes "tools") (non_empty (chat_tools in_.tools)) (
                    at "model" (str in_.model)
                    ∷ at "stream" (bool stream)
                    ∷ at "messages"
                        (list (first ++ chat_messages marshal random_hex_id 0 in_.messages))
                    ∷ [])))))))

  unfoldable pub translate_anthropic_to_chat :
      Option AnthropicRequest → Option Effort → Bool → Option Json
  unfolding anthropic_to_chat
  translate_anthropic_to_chat none effort stream = none
  translate_anthropic_to_chat (some in_) effort stream =
      some (object (anthropic_to_chat in_ effort stream))
