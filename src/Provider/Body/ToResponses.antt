-- ===== src/Provider/Body/ToResponses.antt =====
-- TranslateChatToResponses (internal/provider/translate_responses.go). `to_lower` is strings.ToLower, `marshal`
-- is json.Marshal, and `random_hex_id m n` is what the draw for the n-th call of the m-th message yields.
pub mod Calls
use pogu.Prelude.{
  ℕ, ◌+◌, List, [], ◌∷◌, ◌++◌, Option, none, some, Bool, true, false, ◌||◌, ◌&&◌, not,
  if◌then◌else◌, Text, codes, eq_text, trim_space,
}
use pogu.Provider.Json.{
  Json, null, bool, int, float, obj, arr, str, Array, Object, list, object, as_object, of_fields,
  of_items, get, put, has, delete, string_of, is_nil, at, text,
}
use pogu.Provider.Body.Chat.{
  ChatRequest, ChatToolCall, or_text, object_of, instructions_text, message_text, tool_calls_of,
}
use pogu.Provider.Body.Blocks.{kind_of}
use pogu.Provider.Body.ToAnthropic.{set_if, float_or, non_empty}
use pogu.Provider.Body.ToChat.{int_or}

abbrev pub part : Text → Text → Json
part kind t = object (at "type" (str kind) ∷ at "text" (str t) ∷ [])

-- The url and the detail of an image.
abbrev pub image_of : Json → Text × Text
image_of (str url) = (url, codes "auto")
image_of (obj v) =
    let m = of_fields v in
    (string_of (get (codes "url") m), or_text (string_of (get (codes "detail") m)) (codes "auto"))
image_of _ = ([], codes "auto")

unfoldable pub responses_file_part : Object → Array
responses_file_part m =
    let f : Object = elim (as_object (get (codes "file") m)) [ none ↦ m | some f ↦ f ] in
    let file_data = string_of (get (codes "file_data") f) in
    let id = string_of (get (codes "file_id") f) in
    let name = string_of (get (codes "filename") f) in
    let given : Text → Text → Object = λ key s. if eq_text s [] then [] else (key, str s) ∷ [] in
    if eq_text file_data [] && eq_text id []
    then []
    else object (
        at "type" (text "input_file") ∷ given (codes "file_data") file_data
        ++ (given (codes "file_id") id ++ given (codes "filename") name))
      ∷ []

module _ (marshal : Json → Text) where
  -- One part of a content, as a part of the kind.
  content_part : Text → Json → Array
  unfolding responses_file_part
  content_part kind (str s) = if eq_text s [] then [] else part kind s ∷ []
  content_part kind (obj p) =
      let m = of_fields p in
      let (url, detail) = image_of (get (codes "image_url") m) in
      let own = string_of (get (codes "text") m) in
      let content = string_of (get (codes "content") m) in
      if eq_text (kind_of m) (codes "text")
      then part kind own ∷ []
      else if eq_text (kind_of m) (codes "image_url")
      then object (
          at "type" (text "input_image") ∷ at "image_url" (str url) ∷ at "detail" (str detail) ∷ [])
        ∷ []
      else if eq_text (kind_of m) (codes "input_image")
          || eq_text (kind_of m) (codes "input_audio")
          || eq_text (kind_of m) (codes "input_file")
      then obj p ∷ []
      else if eq_text (kind_of m) (codes "file")
      then responses_file_part m
      else part kind (or_text (or_text own content) (marshal (obj p))) ∷ []
  content_part kind _ = []

  content_parts_in : Text → Array → Array
  unfolding content_part
  content_parts_in kind [] = []
  content_parts_in kind (p ∷ ps) = content_part kind p ++ content_parts_in kind ps

  unfoldable pub content_parts : Text → Json → Array
  unfolding content_parts_in
  content_parts kind (str s) = if eq_text s [] then [] else part kind s ∷ []
  content_parts kind (arr ps) = content_parts_in kind (of_items ps)
  content_parts kind _ = []

unfoldable pub reasoning_input_item : Object → Array
reasoning_input_item msg =
    let s = trim_space (string_of (get (codes "reasoning_content") msg)) in
    if eq_text s []
    then []
    else object (
        at "type" (text "reasoning")
        ∷ at "summary" (list (part (codes "summary_text") s ∷ []))
        ∷ [])
      ∷ []

-- A call without a name is left out.
abbrev pub function_call : ChatToolCall → Array
function_call tc =
    if eq_text tc.name []
    then []
    else object (
        at "type" (text "function_call")
        ∷ at "call_id" (str tc.id)
        ∷ at "name" (str tc.name)
        ∷ at "arguments" (str tc.arguments)
        ∷ [])
      ∷ []

abbrev pub function_calls : List ChatToolCall → Array
function_calls [] = []
function_calls (tc ∷ tcs) = function_call tc ++ function_calls tcs

-- The message, where it has parts.
abbrev pub message_item : Text → Array → Array
message_item role [] = []
message_item role (p ∷ ps) =
    object (at "type" (text "message") ∷ at "role" (str role) ∷ at "content" (list (p ∷ ps)) ∷ [])
    ∷ []

-- A text that is not empty as it is, anything else as its JSON.
abbrev pub output_of : (Json → Text) → Json → Text
output_of marshal (str s) = or_text s (marshal (str s))
output_of marshal content = marshal content

module _ (marshal : Json → Text) (random_hex_id : ℕ → ℕ → Text) where
  abbrev pub call_output : Object → Json
  call_output msg = object (
      at "type" (text "function_call_output")
      ∷ at "call_id" (str (string_of (get (codes "tool_call_id") msg)))
      ∷ at "output" (str (output_of marshal (get (codes "content") msg)))
      ∷ [])

  -- One round of the loop: the instructions, once they are set, and the input so far.
  unfoldable pub add_input : ℕ → Object → Option Text × Array → Option Text × Array
  unfolding content_parts reasoning_input_item
  add_input m msg (instructions, input) =
      let role = string_of (get (codes "role") msg) in
      let content = get (codes "content") msg in
      if eq_text role (codes "system") || eq_text role (codes "developer")
      then elim instructions [
        | none ↦ (some (instructions_text content), input)
        | some given ↦ (
          some given,
          input
              ++ object (
                  at "type" (text "message")
                  ∷ at "role" (text "developer")
                  ∷ at "content" (list (part (codes "input_text") (message_text content) ∷ []))
                  ∷ [])
                ∷ [],
        )
      ]
      else if eq_text role (codes "user")
      then (
        instructions,
        input ++ message_item role (content_parts marshal (codes "input_text") content),
      )
      else if eq_text role (codes "assistant")
      then (
        instructions,
        input
            ++ (reasoning_input_item msg
                ++ (message_item role (content_parts marshal (codes "output_text") content)
                    ++ function_calls (tool_calls_of (random_hex_id m) msg))),
      )
      else if eq_text role (codes "tool")
      then (instructions, input ++ call_output msg ∷ [])
      else (instructions, input)

  unfoldable pub add_inputs : ℕ → List Object → Option Text × Array → Option Text × Array
  unfolding add_input
  add_inputs m [] built = built
  add_inputs m (msg ∷ msgs) built = add_inputs (m + 1) msgs (add_input m msg built)

unfoldable pub token_budget : Option ℕ → Option ℕ → Option ℕ → Option ℕ
token_budget (some n) completion legacy = some n
token_budget none (some n) legacy = some n
token_budget none none legacy = legacy

-- One key of the loop of normalizeResponsesTokenBudget.
abbrev pub move_budget : Text → Object → Object
move_budget key raw =
    delete key
      (elim (get key raw) [ float x ↦ put (codes "max_output_tokens") (float x) raw | _ ↦ raw ])

unfoldable pub normalize_responses_token_budget : Object → Object
normalize_responses_token_budget raw =
    if has (codes "max_output_tokens") raw
    then raw
    else move_budget (codes "max_tokens") (move_budget (codes "max_completion_tokens") raw)

unfoldable pub responses_text_format : Json → Option Object
responses_text_format (obj format) =
    let m = of_fields format in
    let schema = object_of (get (codes "json_schema") m) in
    let name = string_of (get (codes "name") schema) in
    let strict : Object =
      if has (codes "strict") schema then at "strict" (get (codes "strict") schema) ∷ [] else [] in
    if eq_text (kind_of m) (codes "json_schema")
    then if eq_text name [] || is_nil (get (codes "schema") schema)
      then none
      else some (
          at "type" (text "json_schema")
          ∷ at "name" (str name)
          ∷ at "schema" (get (codes "schema") schema)
          ∷ strict)
    else if eq_text (kind_of m) (codes "json_object")
    then some (at "type" (text "json_object") ∷ [])
    else none
responses_text_format _ = none

unfoldable pub clamp_effort : (Text → Text) → Text → Text
clamp_effort to_lower effort =
    let e = to_lower (trim_space effort) in
    if eq_text e (codes "max") || eq_text e (codes "ultra") then codes "xhigh" else effort

-- The tool itself, or what its function says.
abbrev pub flat_tool : Object → Object
flat_tool tool = elim (as_object (get (codes "function") tool)) [
  | none ↦ tool
  | some fn ↦
      at "type" (text "function")
      ∷ at "name" (get (codes "name") fn)
      ∷ at "description" (get (codes "description") fn)
      ∷ at "parameters" (get (codes "parameters") fn)
      ∷ at "strict" (get (codes "strict") fn)
      ∷ []
]

abbrev pub params_of : Json → Json
params_of (obj p) =
    let params = of_fields p in
    if eq_text (kind_of params) (codes "object") && not (has (codes "properties") params)
    then object (put (codes "properties") (object []) params)
    else obj p
params_of _ = object (at "type" (text "object") ∷ at "properties" (object []) ∷ [])

unfoldable pub responses_tool : Object → Array
responses_tool given =
    let tool = flat_tool given in
    let name = trim_space (string_of (get (codes "name") tool)) in
    let strict : Object =
      if has (codes "strict") tool then at "strict" (get (codes "strict") tool) ∷ [] else [] in
    if eq_text name []
    then []
    else object (
        at "type" (text "function")
        ∷ at "name" (str name)
        ∷ at "description" (str (string_of (get (codes "description") tool)))
        ∷ at "parameters" (params_of (get (codes "parameters") tool))
        ∷ strict)
      ∷ []

unfoldable pub responses_tools : List Object → Array
unfolding responses_tool
responses_tools [] = []
responses_tools (t ∷ ts) = responses_tool t ++ responses_tools ts

unfoldable pub responses_tool_choice : Json → Json
responses_tool_choice (obj m) =
    let name = string_of (get (codes "name") (object_of (get (codes "function") (of_fields m)))) in
    if eq_text name []
    then obj m
    else object (at "type" (text "function") ∷ at "name" (str name) ∷ [])
responses_tool_choice choice = choice

abbrev pub str_or : Option Text → Option Json
str_or none = none
str_or (some s) = some (str s)

abbrev pub reasoning_field : (Text → Text) → ChatRequest → Option Json
reasoning_field to_lower in_ = elim in_.reasoning_effort [
  | some effort ↦
      some (
        object (at "effort" (str (clamp_effort to_lower effort)) ∷ at "summary" (text "auto") ∷ []))
  | none ↦ if is_nil in_.reasoning then none else some in_.reasoning
]

module _ (to_lower : Text → Text) (marshal : Json → Text) (random_hex_id : ℕ → ℕ → Text) where
  -- The object for a request of messages.
  unfoldable pub chat_to_responses : ChatRequest → Bool → Object
  unfolding add_inputs responses_tools token_budget responses_text_format clamp_effort
      responses_tool_choice
  chat_to_responses in_ stream =
      let (instructions, input) = add_inputs marshal random_hex_id 0 in_.messages (none, []) in
      let given : Text = elim instructions [ none ↦ [] | some s ↦ s ] in
      let tool_choice : Option Json =
        if is_nil in_.tool_choice then none else some (responses_tool_choice in_.tool_choice) in
      let format : Option Json = elim (responses_text_format in_.response_format) [
        | none ↦ none
        | some f ↦ some (object (at "format" (object f) ∷ []))
      ] in
      let budget = token_budget in_.max_output_tokens in_.max_completion_tokens in_.max_tokens in
      set_if (codes "text") format (
        set_if (codes "service_tier") (str_or in_.service_tier) (
          set_if (codes "reasoning") (reasoning_field to_lower in_) (
            set_if (codes "max_output_tokens") (int_or budget) (
              set_if (codes "top_p") (float_or in_.top_p) (
                set_if (codes "temperature") (float_or in_.temperature) (
                  set_if (codes "tool_choice") tool_choice (
                    set_if (codes "tools") (non_empty (responses_tools in_.tools)) (
                      at "model" (str in_.model)
                      ∷ at "stream" (bool stream)
                      ∷ at "store" (bool false)
                      ∷ at "instructions" (str given)
                      ∷ at "input" (list input)
                      ∷ []))))))))

  -- `raw` is the body as a map; a body with an input is a Responses request already.
  unfoldable pub translate_chat_to_responses : Option ChatRequest → Object → Bool → Option Json
  unfolding chat_to_responses normalize_responses_token_budget
  translate_chat_to_responses none raw stream = none
  translate_chat_to_responses (some in_) raw stream =
      if is_nil in_.input
      then some (object (chat_to_responses in_ stream))
      else some (
          object (
            normalize_responses_token_budget
              (put (codes "store") (bool false) (put (codes "stream") (bool stream) raw))))
