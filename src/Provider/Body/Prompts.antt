-- ===== src/Provider/Body/Prompts.antt =====
-- The prompts that are added to a body (internal/provider/prompts.go), and what SetChatEffort,
-- SetAnthropicThinking, SetAnthropicBudget and the two Strip functions of internal/provider/reasoning.go
-- change. A body is the object that it decodes to; where it does not decode it is passed through.
pub mod Placed
use pogu.Prelude.{
  ℕ, ◌+◌, ◌<◌, List, [], ◌∷◌, ◌++◌, Option, none, some, Bool, true, false, ◌||◌, ltb, ◌==◌,
  if◌then◌else◌, Text, codes, eq_text, trim_space, take, drop,
}
use mathlib.Core.List.{reverse}
use pogu.Provider.Effort.{Effort, none_, map_chat_effort_to_anthropic, effort_text}
use pogu.Provider.Json.{
  Json, null, int, str, arr, obj, Array, Object, list, object, of_items, of_fields, get, put, has,
  delete, string_of, at, text,
}
use pogu.Provider.Body.Blocks.{text_block}
use pogu.Provider.Body.Chat.{newline}

unfoldable pub prompt_header_for : Text → Text
prompt_header_for label =
    if eq_text (trim_space label) []
    then codes "Pogu router preferences:"
    else codes "Pogu router preferences (" ++ (trim_space label ++ codes "):")

abbrev pub trim_newlines_left : Text → Text
trim_newlines_left [] = []
trim_newlines_left (c ∷ s) = if c == 10 then trim_newlines_left s else c ∷ s

-- strings.Trim(prompt, "\n")
abbrev pub trim_newlines : Text → Text
trim_newlines s = reverse (trim_newlines_left (reverse (trim_newlines_left s)))

unfoldable pub wrap_prompt_labeled : Text → Text → Text
unfolding prompt_header_for
wrap_prompt_labeled prompt label = prompt_header_for label ++ (newline ++ trim_newlines prompt)

abbrev pub is_system : Json → Bool
is_system (obj m) = eq_text (string_of (get (codes "role") (of_fields m))) (codes "system")
is_system _ = false

-- One past the last system message from the i-th on, else `found`.
unfoldable pub behind_system : ℕ → ℕ → Array → ℕ
behind_system i found [] = found
behind_system i found (j ∷ js) = behind_system (i + 1) (if is_system j then i + 1 else found) js

unfoldable pub with_entry : Json → Array → Array
unfolding behind_system
with_entry entry raw = let place = behind_system 0 0 raw in take place raw ++ entry ∷ drop place raw

abbrev pub system_entry : Text → Text → Json
system_entry prompt label =
    object (at "role" (text "system") ∷ at "content" (str (wrap_prompt_labeled prompt label)) ∷ [])

unfoldable pub inject_chat_prompt_labeled : Option Object → Text → Text → Option Object
unfolding with_entry wrap_prompt_labeled
inject_chat_prompt_labeled none prompt label = none
inject_chat_prompt_labeled (some body) prompt label =
    if eq_text (trim_space prompt) [] then some body else elim (get (codes "messages") body) [
      | arr raw ↦ some (
          put (codes "messages") (list (with_entry (system_entry prompt label) (of_items raw)))
            body)
      | _ ↦ some body
    ]

abbrev pub separator : Text
separator = 10 ∷ 10 ∷ b'-' ∷ b'-' ∷ b'-' ∷ 10 ∷ []

-- The system field with the prompt, none where it has another shape.
unfoldable pub with_system_prompt : Text → Json → Option Json
with_system_prompt wrapped null = some (str wrapped)
with_system_prompt wrapped (str system) =
    some (str (if eq_text system [] then wrapped else system ++ (separator ++ wrapped)))
with_system_prompt wrapped (arr blocks) = some (list (of_items blocks ++ text_block wrapped ∷ []))
with_system_prompt wrapped _ = none

unfoldable pub inject_anthropic_prompt_labeled : Option Object → Text → Text → Option Object
unfolding with_system_prompt wrap_prompt_labeled
inject_anthropic_prompt_labeled none prompt label = none
inject_anthropic_prompt_labeled (some body) prompt label =
    if eq_text (trim_space prompt) []
    then some body
    else elim (with_system_prompt (wrap_prompt_labeled prompt label) (get (codes "system") body)) [
      | none ↦ some body
      | some system ↦ some (put (codes "system") system body)
    ]

unfoldable pub set_chat_effort : Object → Effort → Object
set_chat_effort body effort = put (codes "reasoning_effort") (str (effort_text effort)) body

unfoldable pub set_anthropic_thinking : Object → Effort → Object
set_anthropic_thinking body none_ =
    delete (codes "output_config")
      (put (codes "thinking") (object (at "type" (text "disabled") ∷ [])) body)
set_anthropic_thinking body effort =
    put (codes "output_config")
      (object (at "effort" (str (effort_text (map_chat_effort_to_anthropic effort))) ∷ []))
      (put (codes "thinking") (object (at "type" (text "adaptive") ∷ [])) body)

unfoldable pub set_anthropic_budget : Object → ℕ → Object
set_anthropic_budget body budget =
    let least = if ltb budget 1024 then 1024 else budget in
    put (codes "thinking")
      (object (at "type" (text "enabled") ∷ at "budget_tokens" (int least) ∷ [])) body

-- delete(object, k) for each key that is there
unfoldable pub strip_chat_foreign : Object → Object
strip_chat_foreign body = delete (codes "output_config") (delete (codes "thinking") body)

unfoldable pub strip_anthropic_foreign : Object → Object
strip_anthropic_foreign body = delete (codes "reasoning") (delete (codes "reasoning_effort") body)
