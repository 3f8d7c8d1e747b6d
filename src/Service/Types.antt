-- ===== src/Service/Types.antt =====
-- internal/service/types.go and the errors of validate.go; the state of the service (service.go).
use pogu.Prelude.{
  ℕ, List, [], Option, none, some, Bool, true, false, Text, codes, eq_text, if◌then◌else◌, ◌≡◌,
  refl, ◌||◌, ◌⊎◌, inl, inr,
}
use pogu.Store.{ProviderType, Db, ProviderRow, ModelRow}
use pogu.Service.RoundRobin.{Cursors}

pub data Error : Type 0 where
  validation already_exists not_found unknown_route no_credentials no_group_targets unauthorized :
      Error
  -- a constraint of the database refused a row
  constraint_failed : Error
  -- crypto.Decrypt refused a stored secret
  decrypt_failed : Error
  -- crypto.Encrypt refused the master key
  encrypt_failed : Error
  -- the skill file was not fetched or not parsed
  skill_failed : Error

pub data Result {ℓ} (A : Type ℓ) : Type ℓ where
  ok : A → Result A
  err : Error → Result A

abbrev pub or_fail {ℓ} : {A : Type ℓ} → Option A → Error → Result A
or_fail none e = err e
or_fail (some a) e = ok a

-- `if !test { return e }`
abbrev pub guard : Bool → Error → Result (Unit {0})
guard test e = or_fail (if test then some tt else none) e

module _ {ℓ κ} {A : Type ℓ} {B : Type κ} where
  infixl 5 ◌>>=◌ ◌>>◌
  abbrev pub ◌>>=◌ : Result A → (A → Result B) → Result B
  err e >>= next = err e
  ok a >>= next = next a

  abbrev pub ◌>>◌ : Result A → Result B → Result B
  first >> second = first >>= (λ a. second)

pub data Scheme : Type 0 where
  openai openai_responses anthropic : Scheme

-- Scheme(s) for the valid names other than "".
unfoldable pub scheme_of : Text → Option Scheme
scheme_of s =
    if eq_text s (codes "openai")
    then some Scheme.openai
    else if eq_text s (codes "openai-responses")
    then some Scheme.openai_responses
    else if eq_text s (codes "anthropic")
    then some Scheme.anthropic
    else none

-- (s Scheme) Valid
unfoldable pub valid_scheme : Text → Bool
unfolding scheme_of
valid_scheme s = eq_text s [] || elim (scheme_of s) [ none ↦ false | some _ ↦ true ]

unfoldable pub default_scheme : ProviderType → Scheme
default_scheme ProviderType.anthropic = Scheme.anthropic
default_scheme _ = Scheme.openai

unfoldable pub effective_scheme : ProviderRow → ModelRow → Scheme
unfolding scheme_of default_scheme
effective_scheme p m = elim (scheme_of m.scheme) [ none ↦ default_scheme p.type | some s ↦ s ]

pub record Route : Type 0 where
  pub provider : ProviderRow
  pub model : ModelRow

-- The cached, target-resolved form of a prompt rule; the two sets as lists of ids.
pub record PromptRule : Type 0 where
  pub id : ℕ
  pub name : Text
  pub prompt : Text
  pub inherit : Bool
  pub enabled : Bool
  pub groups : List ℕ
  pub models : List ℕ

-- `prompt_rules` is none while nothing is loaded.
pub record Service : Type 0 where
  pub db : Db
  pub rr_cursors : Cursors
  pub prompt_rules : Option (List PromptRule)

-- What a successful step went through.
pub or_fail-eq-ok {ℓ} :
    {A : Type ℓ} (found : Option A) (e : Error) {a : A} → or_fail found e ≡ ok a → found ≡ some a
or_fail-eq-ok (some a) e h = cc
or_fail-eq-ok none e h = cc

pub guard-eq-ok : (test : Bool) (e : Error) {u : Unit {0}} → guard test e ≡ ok u → test ≡ true
guard-eq-ok false e h = cc
guard-eq-ok true e h = refl

module _ {ℓ κ} {A : Type ℓ} {B : Type κ} where
  pub >>=-eq-ok :
      (first : Result A) (next : A → Result B) {last : B}
      → (first >>= next) ≡ ok last
      → (middle : A) × (first ≡ ok middle) × (next middle ≡ ok last)
  >>=-eq-ok (err e) next done = cc
  >>=-eq-ok (ok middle) next done = (middle, refl, done)

module _ {ℓ} {A : Type ℓ} where
  pub ok-injective : {a b : A} → ok a ≡ ok b → a ≡ b
  ok-injective e = cc

  pub Result-cases : (r : Result A) → ((a : A) × (r ≡ ok a)) ⊎ ((e : Error) × (r ≡ err e))
  Result-cases (err e) = inr (e, refl)
  Result-cases (ok a) = inl (a, refl)
