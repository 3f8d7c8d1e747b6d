-- ===== src/Provider/Usage.antt =====
-- The token usage that upstreams report (internal/provider/usage.go). A payload is the parsed JSON of a
-- body or of an event; a count is an int64, taken modulo 2 ^ 64.
pub mod Collected
use pogu.Prelude.{
  ℕ, ◌+◌, ◌%◌, ◌^◌, List, [], ◌∷◌, Option, none, some, Bool, true, false, ◌||◌, not, if◌then◌else◌,
  Text, eq_text,
}

pub record FieldUsage : Type 0 where
  pub prompt_tokens : Option ℕ
  pub completion_tokens : Option ℕ
  pub total_tokens : Option ℕ
  pub input_tokens : Option ℕ
  pub output_tokens : Option ℕ

pub record MessageUsage : Type 0 where
  pub input_tokens : Option ℕ
  pub output_tokens : Option ℕ

pub record UsageMessage : Type 0 where
  pub model : Option Text
  pub usage : Option MessageUsage

-- The output tokens of a delta's usage.
pub record DeltaUsage : Type 0 where
  pub output_tokens : Option ℕ

pub record UsageDelta : Type 0 where
  pub usage : Option DeltaUsage

pub record UsagePayload : Type 0 where
  pub model : Option Text
  pub usage : Option FieldUsage
  pub message : Option UsageMessage
  pub delta : Option UsageDelta

pub record TokenUsage : Type 0 where
  pub input : Option ℕ
  pub output : Option ℕ
  pub total : Option ℕ

abbrev pub no_usage : TokenUsage
no_usage = record { input = none; output = none; total = none }

-- `if u.Total == nil && u.Input != nil && u.Output != nil`: the sum of the two.
abbrev pub with_total : TokenUsage → TokenUsage
with_total u = record u {
  total = elim u.total [
    | some t ↦ some t
    | none ↦ elim u.input [
      | none ↦ none
      | some i ↦ elim u.output [ none ↦ none | some o ↦ some ((i + o) % 2 ^ 64) ]
    ]
  ];
}

-- `anthropic`: whether the protocol is the one of that name.
unfoldable pub usage_from_fields : Bool → FieldUsage → TokenUsage
usage_from_fields true f =
    with_total (record { input = f.input_tokens; output = f.output_tokens; total = none })
usage_from_fields false f =
    with_total
      (record { input = f.prompt_tokens; output = f.completion_tokens; total = f.total_tokens })

unfoldable pub extract_unary_usage : Bool → Option UsagePayload → TokenUsage
unfolding usage_from_fields
extract_unary_usage anthropic none = no_usage
extract_unary_usage anthropic (some p) = elim p.usage [
  | none ↦ no_usage
  | some f ↦ usage_from_fields anthropic f
]

-- A name that is there and not empty.
abbrev pub named : Option Text → Option Text
named none = none
named (some name) = if eq_text name [] then none else some name

unfoldable pub extract_upstream_model : Option UsagePayload → Option Text
extract_upstream_model none = none
extract_upstream_model (some p) = named p.model

-- `first` and `model` are none while hasFirst and hasModel are false.
pub record UsageCollector : Type 0 where
  pub anthropic : Bool
  pub obtained : Bool
  pub input : Option ℕ
  pub output : Option ℕ
  pub total : Option ℕ
  pub first : Option ℕ
  pub model : Option Text
  pub notified : Bool

unfoldable pub new_usage_collector : Bool → UsageCollector
new_usage_collector anthropic = record {
  anthropic = anthropic;
  obtained = false;
  input = none;
  output = none;
  total = none;
  first = none;
  model = none;
  notified = false;
}

-- The second where the first is missing.
abbrev pub or_else {ℓ} : {A : Type ℓ} → Option A → Option A → Option A
or_else none b = b
or_else (some a) b = some a

abbrev pub is_some {ℓ} : {A : Type ℓ} → Option A → Bool
is_some none = false
is_some (some a) = true

pub merge : UsageCollector → TokenUsage → Bool → UsageCollector
merge c u has_output =
    let output = if has_output then u.output else none in
    record c {
      input = or_else u.input c.input;
      output = or_else output c.output;
      total = or_else u.total c.total;
      obtained = c.obtained || is_some u.input || is_some output || is_some u.total;
    }

observe_model : UsageCollector → UsagePayload → UsageCollector
observe_model c p = record c {
  model =
      or_else c.model
        (or_else (named p.model) (elim p.message [ none ↦ none | some m ↦ named m.model ]));
}

observe_usage : UsageCollector → UsagePayload → UsageCollector
unfolding merge usage_from_fields
observe_usage c p = elim p.usage [
  | none ↦ c
  | some f ↦ let u = usage_from_fields c.anthropic f in merge c u (is_some u.output)
]

observe_message : UsageCollector → UsagePayload → UsageCollector
unfolding merge
observe_message c p = elim p.message [
  | none ↦ c
  | some m ↦ elim m.usage [
    | none ↦ c
    | some u ↦
        merge c (record { input = u.input_tokens; output = u.output_tokens; total = none })
          (is_some u.output_tokens)
  ]
]

observe_delta : UsageCollector → UsagePayload → UsageCollector
observe_delta c p = elim p.delta [
  | none ↦ c
  | some d ↦ elim d.usage [
    | none ↦ c
    | some u ↦ elim u.output_tokens [
      | none ↦ c
      | some o ↦ record c { output = some o; obtained = true }
    ]
  ]
]

-- A payload is none where json.Unmarshal fails. With it: whether OnFirst is called.
unfoldable pub observe : UsageCollector → ℕ → Option UsagePayload → UsageCollector × Bool
unfolding observe_model observe_usage observe_message observe_delta
observe c now payload =
    let seen = record c { first = or_else c.first (some now) } in
    elim payload [
      | none ↦ (seen, false)
      | some p ↦
          let read = observe_delta (observe_message (observe_usage (observe_model seen p) p) p) p in
          (record read { notified = true }, not c.notified)
    ]

unfoldable pub usage : UsageCollector → TokenUsage
usage c =
    if c.obtained
    then with_total (record { input = c.input; output = c.output; total = c.total })
    else no_usage
