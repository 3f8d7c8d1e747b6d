-- ===== src/Provider/Body/Chat.antt =====
-- The chat request and what both translators read of it (internal/provider/common.go).
use pogu.Prelude.{
  ℕ, ◌+◌, List, [], ◌∷◌, ◌++◌, Option, if◌then◌else◌, Text, codes, eq_text, trim_space,
}
use pogu.Provider.Json.{Json, arr, obj, str, Array, Object, of_fields, of_items, get, string_of}

-- Numbers that are float64 stand by their literals.
pub record ChatRequest : Type 0 where
  pub model : Text
  pub messages : List Object
  pub tools : List Object
  pub tool_choice : Json
  pub temperature : Option Text
  pub top_p : Option Text
  pub max_tokens : Option ℕ
  pub max_completion_tokens : Option ℕ
  pub max_output_tokens : Option ℕ
  pub reasoning_effort : Option Text
  pub reasoning : Json
  pub service_tier : Option Text
  pub response_format : Json
  pub stop : Json
  pub input : Json

-- strings.Join
abbrev pub join : Text → List Text → Text
join sep [] = []
join sep (t ∷ []) = t
join sep (t ∷ u ∷ ts) = t ++ (sep ++ join sep (u ∷ ts))

-- append(texts, text) unless the text is empty
abbrev pub unless_empty : Text → List Text
unless_empty t = if eq_text t [] then [] else t ∷ []

abbrev pub newline : Text
newline = 10 ∷ []

-- An object, or nil where the value is none.
abbrev pub object_of : Json → Object
object_of (obj o) = of_fields o
object_of _ = []

abbrev pub array_of : Json → Array
array_of (arr js) = of_items js
array_of _ = []

abbrev pub text_of_part : Json → List Text
text_of_part (obj o) =
    let m = of_fields o in
    if eq_text (string_of (get (codes "text") m)) []
    then unless_empty (string_of (get (codes "content") m))
    else string_of (get (codes "text") m) ∷ []
text_of_part (str s) = s ∷ []
text_of_part _ = []

abbrev pub texts_of_parts : Array → List Text
texts_of_parts [] = []
texts_of_parts (p ∷ ps) = text_of_part p ++ texts_of_parts ps

unfoldable pub instructions_text : Json → Text
instructions_text (str s) = s
instructions_text (arr parts) = join newline (texts_of_parts (of_items parts))
instructions_text _ = []

unfoldable pub message_text : Json → Text
unfolding instructions_text
message_text content = instructions_text content

pub record ChatToolCall : Type 0 where
  pub id : Text
  pub name : Text
  pub arguments : Text

abbrev pub or_text : Text → Text → Text
or_text s default = if eq_text s [] then default else s

-- `random_hex_id n` is what the draw for the n-th item yields.
unfoldable pub tool_call_of : (ℕ → Text) → ℕ → Json → List ChatToolCall
tool_call_of random_hex_id n (obj item) =
    let tc = of_fields item in
    let fn = object_of (get (codes "function") tc) in
    let name = trim_space (string_of (get (codes "name") fn)) in
    if eq_text name []
    then []
    else record {
      id = or_text (string_of (get (codes "id") tc)) (codes "call_" ++ random_hex_id n);
      name = name;
      arguments = or_text (string_of (get (codes "arguments") fn)) (codes "{}");
    }
      ∷ []
tool_call_of random_hex_id n _ = []

unfoldable pub tool_calls_in : (ℕ → Text) → ℕ → Array → List ChatToolCall
unfolding tool_call_of
tool_calls_in random_hex_id n [] = []
tool_calls_in random_hex_id n (item ∷ items) =
    tool_call_of random_hex_id n item ++ tool_calls_in random_hex_id (n + 1) items

unfoldable pub tool_calls_of : (ℕ → Text) → Object → List ChatToolCall
unfolding tool_calls_in
tool_calls_of random_hex_id msg =
    tool_calls_in random_hex_id 0 (array_of (get (codes "tool_calls") msg))
