-- ===== src/Provider/Body/Images.antt =====
-- Images between the two forms: a data URL of a chat, and a base64 source of Anthropic.
use pogu.Prelude.{
  ℕ, ◌≡◌, ◌≢◌, refl, ap, ◌∙◌, [], ◌∷◌, ◌++◌, true, false, Text, codes, eq_text, cut, cut-append,
  Lacks, append_assoc, arith, sym,
}
use pogu.Provider.Json.{str, object, at, text, Object}
use pogu.Provider.Body.Chat.{or_text}
use pogu.Provider.Body.Blocks.{base64_block, data_block, anthropic_image_block}
use pogu.Provider.Body.ToChat.{data_url, image_url_part, chat_image_part}

abbrev pub base64_source : Text → Text → Object
base64_source media payload =
    at "type" (text "base64") ∷ at "media_type" (str media) ∷ at "data" (str payload) ∷ []

Lacks-append : (sep : ℕ) (s t : Text) → Lacks sep s → Lacks sep t → Lacks sep (s ++ t)
Lacks-append sep [] t h h' = h'
Lacks-append sep (c ∷ s) t h h' = (h.0, Lacks-append sep s t h.1 h')

not_blank : (s : Text) → s ≢ [] → eq_text s [] ≡ false
unfolding eq_text
not_blank [] h = absurd (h refl)
not_blank (c ∷ s) h = refl

given : (s default : Text) → s ≢ [] → or_text s default ≡ s
unfolding eq_text
given [] default h = absurd (h refl)
given (c ∷ s) default h = refl

-- An image of a media type and a payload that are not empty, the media type without a comma or a semicolon: the
-- data URL of a chat becomes the base64 source, and the base64 source becomes that data URL.
anthropic_image_block-data_url :
    (media payload : Text)
    → media ≢ []
    → payload ≢ []
    → Lacks b',' media
    → Lacks b';' media
    → (anthropic_image_block (str (data_url media payload))
        ≡ base64_block "image" media payload ∷ [])
      × (chat_image_part (object (base64_source media payload))
          ≡ image_url_part (data_url media payload) ∷ [])
unfolding anthropic_image_block chat_image_part data_block eq_text
anthropic_image_block-data_url media payload m p no_comma no_semicolon =
    let meta : cut b',' (media ++ (codes ";base64," ++ payload))
        ≡ (media ++ codes ";base64", payload, true) =
      ap (cut b',') (sym (append_assoc media (codes ";base64") (b',' ∷ payload)))
      ∙ cut-append b',' (media ++ codes ";base64") payload
          (Lacks-append b',' media (codes ";base64") no_comma (omega arith)) in
    let type : cut b';' (media ++ codes ";base64") ≡ (media, codes "base64", true) =
      cut-append b';' media (codes "base64") no_semicolon in
    let filled : eq_text payload [] ≡ false = not_blank payload p in
    (
      rw (data_block, meta, type, given media (codes "image/png") m, filled),
      rw (given media (codes "image/png") m),
    )
