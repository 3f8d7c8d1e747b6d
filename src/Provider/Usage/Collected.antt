-- ===== src/Provider/Usage/Collected.antt =====
-- What SSEUsageCollector has collected behind a stream, told from the stream as a whole
-- (internal/provider/usage.go).
use pogu.Prelude.{
  ℕ, ◌≡◌, refl, ap, ◌∙◌, List, [], ◌∷◌, ◌++◌, Option, none, some, Bool, true, false, ◌||◌, arith,
  Text,
}
use pogu.Provider.Usage.{
  UsagePayload, UsageCollector, usage_from_fields, named, new_usage_collector, or_else, is_some,
  merge, observe_model, observe_usage, observe_message, observe_delta, observe, usage,
}

-- The input and the output tokens that a payload reports, in the order of its parts.
abbrev pub inputs_of : Bool → UsagePayload → List (Option ℕ)
inputs_of anthropic p =
    (elim p.usage [
      | none ↦ none
      | some f ↦ elim anthropic [ true ↦ f.input_tokens | false ↦ f.prompt_tokens ]
    ])
    ∷ (elim p.message [
      | none ↦ none
      | some m ↦ elim m.usage [ none ↦ none | some u ↦ u.input_tokens ]
    ])
    ∷ []

abbrev pub outputs_of : Bool → UsagePayload → List (Option ℕ)
outputs_of anthropic p =
    (elim p.usage [
      | none ↦ none
      | some f ↦ elim anthropic [ true ↦ f.output_tokens | false ↦ f.completion_tokens ]
    ])
    ∷ (elim p.message [
      | none ↦ none
      | some m ↦ elim m.usage [ none ↦ none | some u ↦ u.output_tokens ]
    ])
    ∷ (elim p.delta [
      | none ↦ none
      | some d ↦ elim d.usage [ none ↦ none | some u ↦ u.output_tokens ]
    ])
    ∷ []

abbrev pub models_of : UsagePayload → List (Option Text)
models_of p = named p.model ∷ (elim p.message [ none ↦ none | some m ↦ named m.model ]) ∷ []

-- What the payloads that can be read report, in their order.
abbrev pub reported {ℓ} :
    {A : Type ℓ}
    → (UsagePayload → List (Option A))
    → List (ℕ × Option UsagePayload)
    → List (Option A)
reported of [] = []
reported of ((now, none) ∷ events) = reported of events
reported of ((now, some p) ∷ events) = of p ++ reported of events

-- The last value that is there, else the old one; the first that is there, behind the old one.
abbrev pub last_some {ℓ} : {A : Type ℓ} → Option A → List (Option A) → Option A
last_some old [] = old
last_some old (x ∷ xs) = last_some (or_else x old) xs

abbrev pub first_some {ℓ} : {A : Type ℓ} → Option A → List (Option A) → Option A
first_some old [] = old
first_some old (x ∷ xs) = first_some (or_else old x) xs

unfoldable pub observe_all : UsageCollector → List (ℕ × Option UsagePayload) → UsageCollector
observe_all c [] = c
observe_all c ((now, payload) ∷ events) = observe_all (observe c now payload).0 events

-- Something was obtained just where a count is there.
abbrev Obtained : UsageCollector → Type 0
Obtained c = c.obtained ≡ (is_some c.input || is_some c.output || is_some c.total)

observe_usage-Obtained :
    (c : UsageCollector) (p : UsagePayload) → Obtained c → Obtained (observe_usage c p)
unfolding observe_usage merge
observe_usage-Obtained c p h = ground (arith, h)

observe_message-Obtained :
    (c : UsageCollector) (p : UsagePayload) → Obtained c → Obtained (observe_message c p)
unfolding observe_message merge
observe_message-Obtained c p h = ground (arith, h)

observe_delta-Obtained :
    (c : UsageCollector) (p : UsagePayload) → Obtained c → Obtained (observe_delta c p)
unfolding observe_delta
observe_delta-Obtained c p h = ground (arith, h)

observe-Obtained :
    (c : UsageCollector) (now : ℕ) (payload : Option UsagePayload)
    → Obtained c
    → Obtained (observe c now payload).0
unfolding observe observe_model
observe-Obtained c now none h = h
observe-Obtained c now (some p) h =
    let m = observe_model (record c { first = or_else c.first (some now) }) p in
    observe_delta-Obtained (observe_message (observe_usage m p) p) p
      (observe_message-Obtained (observe_usage m p) p (observe_usage-Obtained m p h))

observe-input :
    (c : UsageCollector) (now : ℕ) (p : UsagePayload)
    → (observe c now (some p)).0.input ≡ last_some c.input (inputs_of c.anthropic p)
unfolding observe merge observe_model observe_usage observe_message observe_delta usage_from_fields
observe-input c now p = ground arith

observe-output :
    (c : UsageCollector) (now : ℕ) (p : UsagePayload)
    → (observe c now (some p)).0.output ≡ last_some c.output (outputs_of c.anthropic p)
unfolding observe merge observe_model observe_usage observe_message observe_delta usage_from_fields
observe-output c now p = ground arith

observe-model :
    (c : UsageCollector) (now : ℕ) (p : UsagePayload)
    → (observe c now (some p)).0.model ≡ first_some c.model (models_of p)
unfolding observe merge observe_model observe_usage observe_message observe_delta usage_from_fields
observe-model c now p = ground arith

observe-anthropic :
    (c : UsageCollector) (now : ℕ) (payload : Option UsagePayload)
    → (observe c now payload).0.anthropic ≡ c.anthropic
unfolding observe merge observe_model observe_usage observe_message observe_delta usage_from_fields
observe-anthropic c now payload = ground arith

-- What a collector has behind events, from what it had.
abbrev Collected : UsageCollector → List (ℕ × Option UsagePayload) → UsageCollector → Type 0
Collected c events c' =
    Obtained c'
    × (c'.input ≡ last_some c.input (reported (inputs_of c.anthropic) events))
    × (c'.output ≡ last_some c.output (reported (outputs_of c.anthropic) events))
    × (c'.model ≡ first_some c.model (reported models_of events))

observe_all-Collected :
    (c : UsageCollector) (events : List (ℕ × Option UsagePayload))
    → Obtained c
    → Collected c events (observe_all c events)
unfolding observe_all observe
observe_all-Collected c [] h = (h, refl, refl, refl)
observe_all-Collected c ((now, none) ∷ events) h =
    observe_all-Collected (observe c now none).0 events (observe-Obtained c now none h)
observe_all-Collected c ((now, some p) ∷ events) h =
    let c' = (observe c now (some p)).0 in
    let (got, i, o, m) = observe_all-Collected c' events (observe-Obtained c now (some p) h) in
    let same = observe-anthropic c now (some p) in
    (
      got,
      i
          ∙ (ap (λ a. last_some c'.input (reported (inputs_of a) events)) same
              ∙ ap (λ x. last_some x (reported (inputs_of c.anthropic) events))
                  (observe-input c now p)),
      o
          ∙ (ap (λ a. last_some c'.output (reported (outputs_of a) events)) same
              ∙ ap (λ x. last_some x (reported (outputs_of c.anthropic) events))
                  (observe-output c now p)),
      m ∙ ap (λ x. first_some x (reported models_of events)) (observe-model c now p),
    )

-- Whatever the events of a stream, and whether or not they can be read, the usage at its end has the last
-- input and the last output tokens that any of them reported, the model is the first that is named, and
-- nothing is there where nothing was reported.
pub usage-observe_all :
    (anthropic : Bool) (events : List (ℕ × Option UsagePayload))
    → ((usage (observe_all (new_usage_collector anthropic) events)).input
        ≡ last_some none (reported (inputs_of anthropic) events))
      × ((usage (observe_all (new_usage_collector anthropic) events)).output
          ≡ last_some none (reported (outputs_of anthropic) events))
      × ((observe_all (new_usage_collector anthropic) events).model
          ≡ first_some none (reported models_of events))
unfolding usage new_usage_collector
usage-observe_all anthropic events =
    let (got, i, o, m) = observe_all-Collected (new_usage_collector anthropic) events refl in
    (ground (arith, got, i), ground (arith, got, o), m)
