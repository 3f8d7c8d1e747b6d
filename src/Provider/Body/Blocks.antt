-- ===== src/Provider/Body/Blocks.antt =====
-- The content blocks that TranslateChatToAnthropic makes (internal/provider/translate_anthropic.go).
use pogu.Prelude.{
  [], ◌∷◌, ◌++◌, Option, none, some, Bool, ◌||◌, ◌==◌, if◌then◌else◌, Text, codes, eq_text, cut,
}
use Prim.Native.String.{String}
use pogu.Provider.Json.{
  Json, arr, obj, str, Array, Object, list, object, as_object, of_fields, of_items, get, string_of,
  at, text,
}
use pogu.Provider.Body.Chat.{or_text, object_of}

-- strings.CutPrefix
unfoldable pub cut_prefix : Text → Text → Option Text
cut_prefix [] s = some s
cut_prefix (c ∷ p) [] = none
cut_prefix (c ∷ p) (d ∷ s) = let rest = cut_prefix p s in if c == d then rest else none

-- The type of a part.
abbrev pub kind_of : Object → Text
kind_of m = string_of (get (codes "type") m)

abbrev pub is_text_kind : Text → Bool
is_text_kind kind =
    eq_text kind (codes "text")
    || eq_text kind (codes "input_text")
    || eq_text kind (codes "output_text")

abbrev pub is_file_kind : Text → Bool
is_file_kind kind = eq_text kind (codes "file") || eq_text kind (codes "input_file")

abbrev pub text_block : Text → Json
text_block t = object (at "type" (text "text") ∷ at "text" (str t) ∷ [])

abbrev pub text_blocks : Text → Array
text_blocks t = if eq_text t [] then [] else text_block t ∷ []

abbrev pub source_block : String → Object → Json
source_block kind source = object (at "type" (text kind) ∷ at "source" (object source) ∷ [])

abbrev pub base64_block : String → Text → Text → Json
base64_block kind media payload =
    source_block kind
      (at "type" (text "base64") ∷ at "media_type" (str media) ∷ at "data" (str payload) ∷ [])

-- The block of what stands behind "data:", with the media type that is meant where none is given.
unfoldable pub data_block : String → Text → Text → Array
data_block kind default rest =
    let (meta, payload, _) = cut b',' rest in
    let (media, _, _) = cut b';' meta in
    if eq_text payload [] then [] else base64_block kind (or_text media default) payload ∷ []

unfoldable pub image_block : Text → Array
unfolding data_block cut_prefix
image_block url = if eq_text url [] then [] else elim (cut_prefix (codes "data:") url) [
  | some rest ↦ data_block "image" (codes "image/png") rest
  | none ↦ source_block "image" (at "type" (text "url") ∷ at "url" (str url) ∷ []) ∷ []
]

unfoldable pub anthropic_image_block : Json → Array
unfolding image_block
anthropic_image_block (str url) = image_block url
anthropic_image_block (obj m) = image_block (string_of (get (codes "url") (of_fields m)))
anthropic_image_block _ = []

unfoldable pub anthropic_document_block : Object → Array
unfolding data_block cut_prefix
anthropic_document_block m =
    let f : Object = elim (as_object (get (codes "file") m)) [ none ↦ m | some f ↦ f ] in
    let id = string_of (get (codes "file_id") f) in
    let file_data = string_of (get (codes "file_data") f) in
    if eq_text id []
    then if eq_text file_data [] then [] else elim (cut_prefix (codes "data:") file_data) [
      | some rest ↦ data_block "document" (codes "application/pdf") rest
      | none ↦ base64_block "document" (codes "application/pdf") file_data ∷ []
    ]
    else source_block "document" (at "type" (text "file") ∷ at "file_id" (str id) ∷ []) ∷ []

-- One part of the content of a message.
part_blocks : Json → Array
unfolding anthropic_image_block anthropic_document_block
part_blocks (str s) = text_blocks s
part_blocks (obj p) =
    let m = of_fields p in
    let kind = kind_of m in
    if is_text_kind kind
    then text_blocks (string_of (get (codes "text") m))
    else if eq_text kind (codes "image_url")
    then anthropic_image_block (get (codes "image_url") m)
    else if eq_text kind (codes "input_image")
    then anthropic_image_block (str (string_of (get (codes "image_url") m)))
    else if is_file_kind kind
    then anthropic_document_block m
    else if eq_text kind (codes "input_audio")
    then []
    else text_blocks (string_of (get (codes "text") m))
part_blocks _ = []

parts_blocks : Array → Array
parts_blocks [] = []
parts_blocks (p ∷ ps) = part_blocks p ++ parts_blocks ps

unfoldable pub chat_content_to_anthropic : Json → Array
unfolding part_blocks parts_blocks
chat_content_to_anthropic (str s) = text_blocks s
chat_content_to_anthropic (arr parts) = parts_blocks (of_items parts)
chat_content_to_anthropic _ = []

-- One part of the content of a tool's result.
result_blocks : Json → Array
unfolding anthropic_image_block anthropic_document_block
result_blocks (str s) = text_blocks s
result_blocks (obj p) =
    let m = of_fields p in
    let kind = kind_of m in
    let url : Json = elim (get (codes "image_url") m) [
      | obj u ↦ str (string_of (get (codes "url") (of_fields u)))
      | other ↦ other
    ] in
    if is_text_kind kind
    then text_blocks (string_of (get (codes "text") m))
    else if eq_text kind (codes "image_url") || eq_text kind (codes "input_image")
    then anthropic_image_block (str (string_of url))
    else if is_file_kind kind
    then anthropic_document_block m
    else []
result_blocks _ = []

results_blocks : Array → Array
results_blocks [] = []
results_blocks (p ∷ ps) = result_blocks p ++ results_blocks ps

-- `marshal` is json.Marshal, which does not fail on a decoded value.
unfoldable pub tool_result_content : (Json → Text) → Json → Json
unfolding result_blocks results_blocks
tool_result_content marshal (str s) = str s
tool_result_content marshal (arr parts) = elim (results_blocks (of_items parts)) [
  | [] ↦ str []
  | b ∷ bs ↦ list (b ∷ bs)
]
tool_result_content marshal content = str (marshal content)

-- `unmarshal` is json.Unmarshal, none where it fails.
unfoldable pub tool_arguments : (Text → Option Json) → Text → Json
tool_arguments unmarshal args =
    if eq_text args []
    then object []
    else elim (unmarshal args) [ some (obj o) ↦ obj o | _ ↦ object [] ]

unfoldable pub chat_tool_choice_to_anthropic : Json → Json
chat_tool_choice_to_anthropic (str s) =
    if eq_text s (codes "required")
    then object (at "type" (text "any") ∷ [])
    else if eq_text s (codes "none") || eq_text s (codes "auto")
    then object (at "type" (str s) ∷ [])
    else object (at "type" (text "auto") ∷ [])
chat_tool_choice_to_anthropic (obj m) =
    let name = string_of (get (codes "name") (object_of (get (codes "function") (of_fields m)))) in
    if eq_text name []
    then object (at "type" (text "auto") ∷ [])
    else object (at "type" (text "tool") ∷ at "name" (str name) ∷ [])
chat_tool_choice_to_anthropic _ = object (at "type" (text "auto") ∷ [])

abbrev pub stops_in : Array → Array
stops_in [] = []
stops_in (str s ∷ js) = let rest = stops_in js in if eq_text s [] then rest else str s ∷ rest
stops_in (_ ∷ js) = stops_in js

-- None where the source returns nil.
unfoldable pub chat_stop_to_anthropic : Json → Option Json
chat_stop_to_anthropic (str s) = if eq_text s [] then none else some (list (str s ∷ []))
chat_stop_to_anthropic (arr js) = elim (stops_in (of_items js)) [
  | [] ↦ none
  | s ∷ ss ↦ some (list (s ∷ ss))
]
chat_stop_to_anthropic _ = none
