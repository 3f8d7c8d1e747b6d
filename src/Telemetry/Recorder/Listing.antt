-- ===== src/Telemetry/Recorder/Listing.antt =====
-- What the recorder lists (internal/telemetry/telemetry.go). `time_lt` and `id_lt` compare the texts of two times and two ids,
-- as the database does.
use pogu.Prelude.{
  ◌≡◌, refl, false, ℕ, List, [], ◌∷◌, none, some, Bool, ◌&&◌, ◌||◌, not, ltb, where_, map, take,
  if◌then◌else◌, Text, eq_text,
}
use pogu.Telemetry.{RequestRow, AttemptRow, PromptRuleRef, PromptRow}
use pogu.Telemetry.Recorder.{Log, of_request}

-- ORDER BY with a Boolean order, and LIMIT
pub insert_sorted {ℓ} : {A : Type ℓ} → (A → A → Bool) → A → List A → List A
insert_sorted before x [] = x ∷ []
insert_sorted before x (y ∷ ys) =
    let behind = insert_sorted before x ys in if before y x then y ∷ behind else x ∷ y ∷ ys

abbrev pub ComesFirst {ℓ} : {A : Type ℓ} → (A → A → Bool) → A → List A → Type 0
ComesFirst before x [] = Unit
ComesFirst before x (y ∷ ys) = before y x ≡ false

pub insert_sorted-first {ℓ} :
    {A : Type ℓ} (before : A → A → Bool) (x : A) (xs : List A)
    → ComesFirst before x xs
    → insert_sorted before x xs ≡ x ∷ xs
unfolding insert_sorted
insert_sorted-first before x [] h = refl
insert_sorted-first before x (y ∷ ys) h = rw h refl

unfoldable pub sorted_by {ℓ} : {A : Type ℓ} → (A → A → Bool) → List A → List A
unfolding insert_sorted
sorted_by before [] = []
sorted_by before (x ∷ xs) = insert_sorted before x (sorted_by before xs)

pub record RequestWithAttempts : Type 0 where
  pub request : RequestRow
  pub attempts : List AttemptRow
  pub prompts : List PromptRuleRef

abbrev pub ref_of : PromptRow → PromptRuleRef
ref_of p = record { rule_id = elim p.rule_id [ none ↦ 0 | some id ↦ id ]; rule_name = p.rule_name }

-- WHERE request_id=? ORDER BY attempt_number
unfoldable pub list_attempts : Log → Text → List AttemptRow
unfolding sorted_by
list_attempts l id =
    sorted_by (λ (a : AttemptRow) b. ltb a.number b.number) (where_ (of_request id) l.attempts)

-- WHERE request_id=? ORDER BY position
unfoldable pub list_prompt_rules : Log → Text → List PromptRuleRef
unfolding sorted_by
list_prompt_rules l id = map ref_of (
    sorted_by (λ (p : PromptRow) q. ltb p.position q.position)
      (where_ (λ (p : PromptRow). eq_text p.request_id id) l.prompts))

module _ (time_lt : ℕ → ℕ → Bool) (id_lt : Text → Text → Bool) where
  -- started_at DESC, id DESC
  abbrev pub newer : RequestRow → RequestRow → Bool
  newer r s =
      time_lt s.started_at r.started_at
      || not (time_lt r.started_at s.started_at) && id_lt s.id r.id

  unfoldable pub list_requests : ℕ → Log → List RequestWithAttempts
  unfolding list_attempts list_prompt_rules sorted_by
  list_requests limit l =
      map
        (λ r. record {
          request = r;
          attempts = list_attempts l r.id;
          prompts = list_prompt_rules l r.id;
        })
        (take limit (sorted_by newer l.requests))
