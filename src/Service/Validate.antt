-- ===== src/Service/Validate.antt =====
-- internal/service/validate.go and the name checks of groups.go and provider_keys.go, on texts as
-- code points. The URL parser of net/url is a parameter.
use pogu.Prelude.{
  ℕ, zero, suc, ◌≡◌, ◌≢◌, [], ◌∷◌, Bool, true, false, ◌&&◌, ◌||◌, not, ◌==◌, leb, Text, codes,
  if◌then◌else◌, length, trim_space, eq_text, eq_nocase, any, arith, Lacks,
}
use pogu.Store.{
  Db, KeySelection, first, round_robin, ProviderType, openai, openai_responses, anthropic,
}
use pogu.Service.Types.{Result, ok, err, validation, guard, ◌>>◌}

-- [a-z0-9]
abbrev alnum : ℕ → Bool
alnum c = leb b'a' c && leb c b'z' || leb b'0' c && leb c b'9'

-- `inner{0,n}[a-z0-9]` up to the end of the text
slug_tail : (ℕ → Bool) → ℕ → Text → Bool
slug_tail inner n [] = false
slug_tail inner n (c ∷ []) = alnum c
slug_tail inner zero (c ∷ d ∷ s) = false
slug_tail inner (suc n) (c ∷ d ∷ s) = inner c && slug_tail inner n (d ∷ s)

-- `^[a-z0-9](?:inner{0,n}[a-z0-9])?$`
slug : (ℕ → Bool) → ℕ → Text → Bool
unfolding slug_tail
slug inner n [] = false
slug inner n (c ∷ []) = alnum c
slug inner n (c ∷ d ∷ s) = alnum c && slug_tail inner n (d ∷ s)

abbrev prefix_inner : ℕ → Bool
prefix_inner c = alnum c || c == b'-'

abbrev group_inner : ℕ → Bool
group_inner c = alnum c || c == b'.' || c == b'_' || c == b'-'

-- ValidProviderPrefix
unfoldable pub valid_provider_prefix : Text → Bool
unfolding slug
valid_provider_prefix = slug prefix_inner 30

-- validateGroupName: the trimmed name, if it is well formed and no provider has it for a prefix
unfoldable pub validate_group_name : Db → Text → Result Text
unfolding slug
validate_group_name db raw =
    let name = trim_space raw in
    do
      guard (slug group_inner 62 name) validation
      guard (not (any (λ c. c == b'/') name)) validation
      guard (leb (length name) 64) validation
      guard (not (any (λ p. eq_nocase p.prefix name) db.providers.rows)) validation
      ok name

-- validateGroupSelection
unfoldable pub validate_group_selection : Text → Result KeySelection
validate_group_selection sel =
    if eq_text sel []
    then ok first
    else if eq_text sel (codes "first")
    then ok first
    else if eq_text sel (codes "round_robin")
    then ok round_robin
    else err validation

-- (t ProviderType) Valid
unfoldable pub validate_provider_type : Text → Result ProviderType
validate_provider_type typ =
    if eq_text typ (codes "openai")
    then ok openai
    else if eq_text typ (codes "openai-responses")
    then ok openai_responses
    else if eq_text typ (codes "anthropic")
    then ok anthropic
    else err validation

-- [^\\\x00-\x20]
abbrev model_char : ℕ → Bool
model_char c = not (c == b'\\') && not (leb c 0x20)

all_model_chars : Text → Bool
all_model_chars [] = true
all_model_chars (c ∷ s) = model_char c && all_model_chars s

-- No segment between slashes is empty; the flag says that the current one is.
no_empty_segment : Bool → Text → Bool
no_empty_segment empty [] = not empty
no_empty_segment empty (c ∷ s) =
    let next = no_empty_segment true s in
    let same = no_empty_segment false s in if c == b'/' then not empty && next else same

-- validateModelName
unfoldable pub validate_model_name : Text → Result (Unit {0})
unfolding all_model_chars no_empty_segment
validate_model_name name = do
  guard (not (eq_text name []) && all_model_chars name && leb (length name) 300) validation
  guard (no_empty_segment true name) validation
  ok tt

-- A slug holds no slash.
slug_tail-Lacks : (n : ℕ) (s : Text) → slug_tail prefix_inner n s ≡ true → Lacks b'/' s
unfolding slug_tail
slug_tail-Lacks n [] h = tt
slug_tail-Lacks n (c ∷ []) h = ground arith
slug_tail-Lacks zero (c ∷ d ∷ s) h = ground arith
slug_tail-Lacks (suc n) (c ∷ d ∷ s) h = ground (arith, slug_tail-Lacks n (d ∷ s))

pub valid_provider_prefix-Lacks : (s : Text) → valid_provider_prefix s ≡ true → Lacks b'/' s
unfolding valid_provider_prefix
valid_provider_prefix-Lacks [] h = tt
valid_provider_prefix-Lacks (c ∷ []) h = ground arith
valid_provider_prefix-Lacks (c ∷ d ∷ s) h = ground (arith, slug_tail-Lacks 30 (d ∷ s))

pub valid_provider_prefix-ne-nil : (s : Text) → valid_provider_prefix s ≡ true → s ≢ []
unfolding valid_provider_prefix
valid_provider_prefix-ne-nil [] h = cc
valid_provider_prefix-ne-nil (c ∷ s) h = λ e. cc
