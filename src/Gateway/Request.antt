-- ===== src/Gateway/Request.antt =====
-- The front of gateway (internal/httpapi/gateway.go): the credential, the bounded body, the suffix of the model
-- and the translation of the body, up to the targets. A body is the object that it decodes to, none where it
-- decodes to no object; `decode` is json.Unmarshal into the fields model and stream, `translate` is
-- provider.TranslateAnthropicToChat.
use pogu.Prelude.{
  ℕ, ◌+◌, [], ◌∷◌, Option, none, some, Bool, ltb, length, take, drop, if◌then◌else◌, Text, codes,
  eq_text, eq_nocase, trim_space,
}
use pogu.Store.{Table}
use pogu.Service.Types.{Error, ok, err, validation, no_credentials, no_group_targets}
use pogu.Auth.ApiKeys.{ClientKeyRow, authenticate_api_key}
use pogu.Provider.Json.{Json, Object, object, at, text, str, put}
use pogu.Provider.Effort.{Effort}
use pogu.Provider.Body.Prompts.{
  set_chat_effort, set_anthropic_thinking, strip_chat_foreign, strip_anthropic_foreign,
}

pub data Protocol : Type 0 where
  openai anthropic : Protocol

-- An answer that ends the request: its status, its message and its type.
pub record Refusal : Type 0 where
  pub status : ℕ
  pub message : Text
  pub kind : Text

pub data Checked {ℓ} (A : Type ℓ) : Type ℓ where
  passed : A → Checked A
  refused : Refusal → Checked A

abbrev refusal : ℕ → Text → Text → Refusal
refusal status message kind = record { status = status; message = message; kind = kind }

unfoldable pub protocol_error : Protocol → Refusal → Json
protocol_error anthropic r = object (
    at "type" (text "error")
    ∷ at "error" (object (at "type" (str r.kind) ∷ at "message" (str r.message) ∷ []))
    ∷ [])
protocol_error openai r =
    object (at "error" (object (at "message" (str r.message) ∷ at "type" (str r.kind) ∷ [])) ∷ [])

unfoldable pub upstream_error_type : Protocol → Text
upstream_error_type anthropic = codes "api_error"
upstream_error_type openai = codes "upstream_error"

-- The error "model must be …" of resolveTargets is `validation`.
unfoldable pub route_error : Protocol → Error → Refusal
unfolding upstream_error_type
route_error protocol no_group_targets =
    refusal 503 (codes "group has no available targets") (upstream_error_type protocol)
route_error protocol no_credentials =
    refusal 502 (codes "no enabled provider credentials") (upstream_error_type protocol)
route_error protocol validation =
    refusal 400 (codes "model must be a group name or a provider-prefix/model reference")
      (codes "invalid_request_error")
route_error protocol _ = refusal 404 (codes "unknown model or group") (codes "not_found_error")

-- The texts of the headers Authorization and x-api-key, empty where they are missing.
pub record Credentials : Type 0 where
  pub authorization : Text
  pub x_api_key : Text

-- strings.EqualFold with `Bearer ` folds the letters of ASCII only.
unfoldable pub extract_bearer : Text → Text
extract_bearer value =
    if ltb (length value) 7
    then []
    else if eq_nocase (take 7 value) (codes "Bearer ")
    then trim_space (drop 7 value)
    else []

abbrev first_text : Text → Text → Text
first_text s t = if eq_text s [] then t else s

unfoldable pub client_secret : Protocol → Credentials → Text
unfolding extract_bearer
client_secret anthropic c = first_text (trim_space c.x_api_key) (extract_bearer c.authorization)
client_secret openai c = first_text (extract_bearer c.authorization) (trim_space c.x_api_key)

module _ (hash_token : Text → Text) (text_lt : ℕ → ℕ → Bool) where
  unfoldable pub authenticate_ai :
      Protocol → Table ClientKeyRow → ℕ → Credentials → Checked (ClientKeyRow × Table ClientKeyRow)
  unfolding client_secret authenticate_api_key
  authenticate_ai protocol t now c =
      let secret = client_secret protocol c in
      if eq_text secret []
      then refused (refusal 401 (codes "missing API key") (codes "authentication_error"))
      else elim (authenticate_api_key hash_token text_lt t now secret) [
        | err e ↦ refused (refusal 401 (codes "invalid API key") (codes "authentication_error"))
        | ok found ↦ passed found
      ]

-- io.ReadAll of a limited reader, and its test
unfoldable pub read_bounded_body : ℕ → Text → Option Text
read_bounded_body limit sent =
    let body = take (limit + 1) sent in if ltb limit (length body) then none else some body

abbrev pub Body : Type 0
Body = Option Object

pub record Envelope : Type 0 where
  pub model : Text
  pub stream : Bool

-- The body for the providers of the chat protocol, and the body as the client sent it.
pub record Bodies : Type 0 where
  pub body : Body
  pub raw_body : Body

abbrev on_object : (Object → Object) → Body → Body
on_object f none = none
on_object f (some o) = some (f o)

unfoldable pub replace_model : Body → Text → Body
replace_model b model = on_object (λ o. put (codes "model") (str model) o) b

abbrev with_effort : (Object → Effort → Object) → Option Effort → Body → Body
with_effort set none b = b
with_effort set (some e) b = on_object (λ o. set o e) b

abbrev invalid : Text → Refusal
invalid message = refusal 400 message (codes "invalid_request_error")

module _ (parse_suffix : Text → Text × Option Effort) (decode : Body → Option Envelope)
    (decode_stream : Body → Option Bool) (translate : Body → Bool → Option Object) where
  unfoldable pub model_of : Body → Text
  model_of b = elim (decode b) [ none ↦ [] | some e ↦ e.model ]

  -- The model of a body without its suffix, and the effort that the suffix names.
  unfoldable pub suffix_of : Body → Text × Option Effort
  unfolding model_of
  suffix_of b = if eq_text (model_of b) [] then ([], none) else parse_suffix (model_of b)

  -- The model is replaced where the suffix names an effort or the text has changed.
  unfoldable pub without_suffix : Body → Body → Body
  unfolding suffix_of replace_model
  without_suffix read b =
      let (clean, effort) = suffix_of read in
      elim effort [
        | some e ↦ replace_model b clean
        | none ↦ if eq_text clean (model_of read) then b else replace_model b clean
      ]

  unfoldable pub prepare_anthropic : Body → Checked Bodies
  unfolding without_suffix
  prepare_anthropic sent =
      let stripped = on_object strip_anthropic_foreign sent in
      let raw = without_suffix stripped stripped in
      let effort = (suffix_of stripped).1 in
      elim (decode_stream raw) [
        | none ↦ refused (invalid (codes "request must contain a valid model"))
        | some stream ↦ elim (translate raw stream) [
          | none ↦ refused (invalid (codes "request must contain valid messages"))
          | some chat ↦ passed (record {
            body = with_effort set_chat_effort effort (some (strip_chat_foreign chat));
            raw_body = with_effort set_anthropic_thinking effort raw;
          })
        ]
      ]

  unfoldable pub prepare_chat : Body → Bodies
  unfolding without_suffix
  prepare_chat sent =
      let stripped = on_object strip_chat_foreign sent in
      let body =
        with_effort set_chat_effort (suffix_of stripped).1 (without_suffix stripped stripped) in
      record { body = body; raw_body = body }

  unfoldable pub prepare : Protocol → Body → Checked Bodies
  unfolding prepare_anthropic prepare_chat
  prepare anthropic sent = prepare_anthropic sent
  prepare openai sent = passed (prepare_chat sent)

  -- The bodies with the model and the stream flag of the first.
  unfoldable pub prepare_request : Protocol → Body → Checked (Bodies × Envelope)
  unfolding prepare
  prepare_request protocol sent = elim (prepare protocol sent) [
    | refused r ↦ refused r
    | passed b ↦ elim (decode b.body) [
      | none ↦ refused (invalid (codes "request must contain a valid model"))
      | some e ↦
          if eq_text e.model []
          then refused (invalid (codes "request must contain a valid model"))
          else passed (b, e)
    ]
  ]

-- The proxy functions of the two switches, without the suffix Stream or Unary.
pub data Proxy : Type 0 where
  responses_inlet responses anthropic_upstream chat_inlet native : Proxy

-- The function that is called, and the body that it is given.
unfoldable pub proxy_for : Protocol → Text → Bodies → Proxy × Body
proxy_for client scheme b =
    if eq_text scheme (codes "openai-responses")
    then elim client [ openai ↦ (responses, b.body) | anthropic ↦ (responses_inlet, b.raw_body) ]
    else if eq_text scheme (codes "anthropic")
    then elim client [ openai ↦ (anthropic_upstream, b.body) | anthropic ↦ (native, b.raw_body) ]
    else elim client [ openai ↦ (native, b.body) | anthropic ↦ (chat_inlet, b.raw_body) ]
