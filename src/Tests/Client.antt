-- ===== src/Tests/Client.antt =====
-- Requests at the gateway's front and at the upstream client, on concrete texts.
use mathlib.Core.Bool.{Bool}
use pogu.Prelude.{
  ◌≡◌, refl, List, [], ◌∷◌, ◌++◌, none, some, Text, codes, eq_text, eq_nocase, trim_space,
}
use pogu.Provider.Json.{at, text}
use pogu.Provider.Sse.{finished, split_lines, trimmed}
use pogu.Provider.Body.Prompts.{set_chat_effort, strip_chat_foreign}
use pogu.Provider.Client.{relay, new_relay, data_values, trim_bytes, endpoint_path, copy_headers}
use pogu.Provider.Client.Chunks.{taken, whole, relay_lem}
use pogu.Provider.Effort.{Effort}
use pogu.Gateway.Request.{extract_bearer, Body, prepare_request, openai, passed, read_bounded_body}

abbrev chunks : List Text
chunks = codes "data: {\"a\":" ∷ [] ∷ (codes "1}" ++ 13 ∷ 10 ∷ codes "data: [DO") ∷ []

abbrev last_chunk : Text
last_chunk = codes "NE]" ++ 10 ∷ codes "da"

relay_lem_example : relay (taken chunks last_chunk) new_relay ≡ (
  record {
    observed = data_values (split_lines (whole chunks last_chunk)).0;
    pending = (split_lines (whole chunks last_chunk)).1;
    written = whole chunks last_chunk;
  },
  finished,
)
relay_lem_example = relay_lem chunks last_chunk

-- The letter à ends with the byte of a no-break space, which is kept; the no-break space is not.
letter_kept :
    trim_bytes (32 ∷ 0xc3 ∷ 0xa0 ∷ 0xc2 ∷ 0xa0 ∷ 0xe3 ∷ 0x80 ∷ 0x80 ∷ []) ≡ 0xc3 ∷ 0xa0 ∷ []
unfolding trim_bytes
letter_kept = refl

collected : data_values (split_lines (whole chunks last_chunk)).0 ≡ codes "{\"a\":1}" ∷ []
unfolding data_values split_lines eq_text trim_space trimmed
collected = refl

versions : endpoint_path (codes "/api/v1/") (codes "/v1/messages") ≡ codes "/api/v1/messages"
unfolding endpoint_path
versions = refl

passed_headers :
    copy_headers
      (λ s. s)
      ((codes "X-Id", codes "1")
        ∷ (codes "Connection", codes "x, X-Id")
        ∷ (codes "te", codes "t")
        ∷ [])
    ≡ (codes "Connection", codes "x, X-Id") ∷ []
unfolding copy_headers eq_text trim_space
passed_headers = refl

bearer : extract_bearer (codes "bearer  pogu_x ") ≡ codes "pogu_x"
unfolding extract_bearer eq_nocase trim_space
bearer = refl

too_long : read_bounded_body 3 (codes "abcd") ≡ none
unfolding read_bounded_body
too_long = refl

abbrev sent : Body
sent = some (at "model" (text "m(high)") ∷ at "thinking" (text "x") ∷ [])

abbrev cleaned : Body
cleaned = some (at "model" (text "m") ∷ at "reasoning_effort" (text "high") ∷ [])

suffixed :
    prepare_request
      (λ m. (codes "m", some Effort.high))
      (λ b. some (record { model = codes "m(high)"; stream = Bool.true }))
      (λ b. none)
      (λ b s. none)
      openai
      sent
    ≡ passed (
      record { body = cleaned; raw_body = cleaned },
      record { model = codes "m(high)"; stream = Bool.true },
    )
unfolding prepare_request eq_text set_chat_effort strip_chat_foreign
suffixed = refl
