-- ===== src/Gateway/Prompts.antt =====
-- The prompts of a request (resolvePromptSegments and injectPromptSegments of internal/httpapi/gateway.go).
-- The body is of an arbitrary type; `add` is provider.InjectAnthropicPromptLabeled for an Anthropic client and
-- provider.InjectChatPromptLabeled for another, `to_lower` is strings.ToLower, `equal_fold` strings.EqualFold, `load`
-- how a load of the prompt rules ends, if there is one.
use pogu.Prelude.{
  ℕ, ◌≡◌, refl, ◌∙◌, List, [], ◌∷◌, ◌++◌, Option, none, some, Bool, true, false, ◌||◌, not,
  if◌then◌else◌, Text, codes, eq_text, map, where_, Bool-cases, inl, inr,
}
use pogu.Service.Types.{Service}
use pogu.Service.PromptRules.Resolve.{
  Load, PromptSegment, resolve_prompt_rules, prompt_rule_by_name,
}

-- off, false or 0
abbrev pub switches_off : Text → Bool
switches_off word =
    eq_text word (codes "off") || eq_text word (codes "false") || eq_text word (codes "0")

unfoldable pub resolve_prompt_segments :
    (Text → Text)
    → (Text → Text → Bool)
    → Load
    → Service
    → Option ℕ
    → ℕ
    → Text
    → (List PromptSegment × Bool) × Service
resolve_prompt_segments to_lower equal_fold load s group_id model_id override =
    let (named, s') = prompt_rule_by_name equal_fold load s override in
    if switches_off (to_lower override)
    then (([], true), s)
    else if eq_text override []
    then resolve_prompt_rules group_id model_id load s
    else elim named [
      | some (seg, inherit) ↦ ((seg ∷ [], not inherit), s')
      | none ↦ resolve_prompt_rules group_id model_id load s'
    ]

module _ {ℓ} {B : Type ℓ} (add : Bool → B → Text → Text → B) where
  -- A text that is empty is not added.
  abbrev pub inject : Bool → B → Text → Text → B
  inject anthropic b text label = if eq_text text [] then b else add anthropic b text label

  -- On the body, and on the native body of an Anthropic client.
  abbrev pub apply : Bool → B × B → Text → Text → B × B
  apply anthropic (body, raw_body) text label = (
    inject anthropic body text label,
    if anthropic then inject anthropic raw_body text label else raw_body,
  )

  abbrev pub apply_all : Bool → B × B → List PromptSegment → B × B
  apply_all anthropic bodies [] = bodies
  apply_all anthropic bodies (seg ∷ segs) =
      apply_all anthropic (apply anthropic bodies seg.text seg.rule_name) segs

  unfoldable pub inject_prompt_segments :
      Bool → B × B → Text → Bool → List PromptSegment → Text → B × B
  inject_prompt_segments anthropic bodies global_prompt suppressed segments caveman_prompt =
      let given = if suppressed then bodies else apply anthropic bodies global_prompt [] in
      apply anthropic (apply_all anthropic given segments) caveman_prompt []

  -- The prompts that a body is given one after another, with their labels.
  abbrev pub add_all : Bool → B → List (Text × Text) → B
  add_all anthropic b [] = b
  add_all anthropic b ((text, label) ∷ prompts) =
      add_all anthropic (add anthropic b text label) prompts

-- The prompts of a request in their order: the global one unless it is suppressed, those of the rules, and the
-- caveman's.
abbrev pub prompts_of : Text → Bool → List PromptSegment → Text → List (Text × Text)
prompts_of global_prompt suppressed segments caveman_prompt =
    (if suppressed then [] else (global_prompt, []) ∷ [])
    ++ (map (λ seg. (seg.text, seg.rule_name)) segments ++ (caveman_prompt, []) ∷ [])

-- The second pair of bodies is the first with the prompts that are not empty added one after another, to the
-- native body for an Anthropic client only.
abbrev pub Added {ℓ} :
    {B : Type ℓ} → (Bool → B → Text → Text → B) → Bool → B × B → List (Text × Text) → B × B → Type ℓ
Added add anthropic (body, raw_body) prompts bodies =
    (bodies.0 ≡ add_all add anthropic body (where_ (λ p. not (eq_text p.0 [])) prompts))
    × (bodies.1 ≡ (
        if anthropic
        then add_all add anthropic raw_body (where_ (λ p. not (eq_text p.0 [])) prompts)
        else raw_body))

inject-add_all {ℓ} :
    {B : Type ℓ} (add : Bool → B → Text → Text → B) (anthropic : Bool) (b : B) (text label : Text)
    (prompts : List (Text × Text))
    → add_all add anthropic
        (inject add anthropic b text label)
        (where_ (λ p. not (eq_text p.0 [])) prompts)
      ≡ add_all add anthropic b (where_ (λ p. not (eq_text p.0 [])) ((text, label) ∷ prompts))
inject-add_all add anthropic b text label prompts = elim (Bool-cases (eq_text text [])) [
  | inl blank ↦ rw blank
  | inr given ↦ rw given
]

apply-Added {ℓ} :
    {B : Type ℓ} (add : Bool → B → Text → Text → B) (anthropic : Bool) (bodies end : B × B)
    (text label : Text) (prompts : List (Text × Text))
    → Added add anthropic (apply add anthropic bodies text label) prompts end
    → Added add anthropic bodies ((text, label) ∷ prompts) end
apply-Added add true (b, r) end text label prompts (h, h') = (
  h ∙ inject-add_all add true b text label prompts,
  h' ∙ inject-add_all add true r text label prompts,
)
apply-Added add false (b, r) end text label prompts (h, h') =
    (h ∙ inject-add_all add false b text label prompts, h')

Added-refl {ℓ} :
    {B : Type ℓ} (add : Bool → B → Text → Text → B) (anthropic : Bool) (bodies : B × B)
    → Added add anthropic bodies [] bodies
Added-refl add true bodies = (refl, refl)
Added-refl add false bodies = (refl, refl)

apply_all-Added {ℓ} :
    {B : Type ℓ} (add : Bool → B → Text → Text → B) (anthropic : Bool) (bodies : B × B)
    (segs : List PromptSegment) (last : Text)
    → Added add anthropic bodies
        (map (λ seg. (seg.text, seg.rule_name)) segs ++ (last, []) ∷ [])
        (apply add anthropic (apply_all add anthropic bodies segs) last [])
apply_all-Added add anthropic (b, r) [] last =
    apply-Added add anthropic (b, r) (apply add anthropic (b, r) last []) last [] []
      (Added-refl add anthropic (apply add anthropic (b, r) last []))
apply_all-Added add anthropic (b, r) (seg ∷ segs) last =
    apply-Added add anthropic (b, r)
      (apply add anthropic
        (apply_all add anthropic (apply add anthropic (b, r) seg.text seg.rule_name) segs) last [])
      seg.text seg.rule_name (map (λ x. (x.text, x.rule_name)) segs ++ (last, []) ∷ [])
      (apply_all-Added add anthropic (apply add anthropic (b, r) seg.text seg.rule_name) segs last)

-- The body is given the global prompt unless it is suppressed, then the prompts of the rules in their order, then
-- the caveman's, each once and without the empty ones, and so is the native body of an Anthropic client; the
-- native body of another client is left as it is.
pub inject_prompt_segments-Added {ℓ} :
    {B : Type ℓ} (add : Bool → B → Text → Text → B) (anthropic : Bool) (bodies : B × B)
    (global_prompt : Text) (suppressed : Bool) (segments : List PromptSegment)
    (caveman_prompt : Text)
    → Added add anthropic bodies (prompts_of global_prompt suppressed segments caveman_prompt) (
        inject_prompt_segments add anthropic bodies global_prompt suppressed segments
          caveman_prompt)
unfolding inject_prompt_segments
inject_prompt_segments-Added add anthropic bodies global_prompt true segments caveman_prompt =
    apply_all-Added add anthropic bodies segments caveman_prompt
inject_prompt_segments-Added add anthropic bodies global_prompt false segments caveman_prompt =
    apply-Added add anthropic bodies
      (inject_prompt_segments add anthropic bodies global_prompt false segments caveman_prompt)
      global_prompt [] (prompts_of global_prompt true segments caveman_prompt)
      (apply_all-Added add anthropic (apply add anthropic bodies global_prompt []) segments
        caveman_prompt)
