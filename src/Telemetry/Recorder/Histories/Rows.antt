-- ===== src/Telemetry/Recorder/Histories/Rows.antt =====
-- One event of a request (internal/httpapi/gateway_telemetry.go) in the tables of internal/telemetry/telemetry.go.
use pogu.Prelude.{
  eq_text_refl, ℕ, ◌≡◌, refl, ap, ◌∙◌, inl, inr, List, [], ◌∷◌, ◌++◌, Option, Bool, true, false,
  ◌&&◌, not, ◌==◌, any, where_, update_where, All, All-append, All-imp, Text, arith, Bool-cases,
  if◌then◌else◌,
}
use pogu.Gateway.Errors.{ErrorCategory, Status}
use pogu.Gateway.Attempts.{attempt_started, attempt_finished, request_finished}
use pogu.Telemetry.{RequestRow, AttemptRow}
use pogu.Telemetry.Recorder.{
  Log, has_id, of_request, is_null, is_in_progress, insert_attempt, start_attempt, finish_attempt,
  finish_request, finished_attempt, finished_request,
}
use pogu.Telemetry.Recorder.Histories.{Details, status_of, record_event}

-- An update of the rows that pass a test leaves the others, if it keeps the test.
where_-update_where :
    {A : Type 0} (p q : A → Bool) (f : A → A)
    → ((x : A) → q x ≡ true → p x ≡ true)
    → ((x : A) → p (f x) ≡ p x)
    → (xs : List A) → where_ (λ x. not (p x)) (update_where q f xs) ≡ where_ (λ x. not (p x)) xs
where_-update_where p q f inside keeps [] = refl
where_-update_where p q f inside keeps (x ∷ xs) = elim (Bool-cases (q x)) [
  | inl e ↦ rw (e, keeps x, inside x e) (where_-update_where p q f inside keeps xs)
  | inr e ↦
      rw e (ap (λ l. if not (p x) then x ∷ l else l) (where_-update_where p q f inside keeps xs))
]

pub where_-snoc :
    {A : Type 0} (p : A → Bool) (xs : List A) (x : A)
    → p x ≡ true
    → where_ (λ y. not (p y)) (xs ++ x ∷ []) ≡ where_ (λ y. not (p y)) xs
where_-snoc p [] x e = rw e refl
where_-snoc p (y ∷ xs) x e = ground (arith, where_-snoc p xs x e)

any-update_where :
    {A : Type 0} (p q : A → Bool) (f : A → A)
    → ((x : A) → p (f x) ≡ p x)
    → (xs : List A) → any p (update_where q f xs) ≡ any p xs
any-update_where p q f keeps [] = refl
any-update_where p q f keeps (x ∷ xs) = elim (Bool-cases (q x)) [
  | inl e ↦ rw (e, keeps x, any-update_where p q f keeps xs) refl
  | inr e ↦ rw (e, any-update_where p q f keeps xs) refl
]

pub any-snoc :
    {A : Type 0} (p : A → Bool) (xs : List A) (x : A) → p x ≡ true → any p (xs ++ x ∷ []) ≡ true
any-snoc p [] x e = rw e refl
any-snoc p (y ∷ xs) x e = ground (arith, any-snoc p xs x e)

All-update_where :
    {A : Type 0} (P Q : A → Type 0) (q : A → Bool) (f : A → A)
    → ((x : A) → P x → q x ≡ true → Q (f x))
    → ((x : A) → P x → q x ≡ false → Q x)
    → (xs : List A) → All P xs
    → All Q (update_where q f xs)
All-update_where P Q q f inside outside [] a = tt
All-update_where P Q q f inside outside (x ∷ xs) a = elim (Bool-cases (q x)) [
  | inl e ↦ rw e (inside x a.0 e, All-update_where P Q q f inside outside xs a.1)
  | inr e ↦ rw e (outside x a.0 e, All-update_where P Q q f inside outside xs a.1)
]

All-of : {A : Type 0} (P : A → Type 0) → ((x : A) → P x) → (xs : List A) → All P xs
All-of P f [] = tt
All-of P f (x ∷ xs) = (f x, All-of P f xs)

module _ (id : Text) where
  abbrev pub IsPresent : Log → Type 0
  IsPresent l = any (has_id id) l.requests ≡ true

  -- An attempt of the request is completed.
  abbrev pub IsCompleted : AttemptRow → Type 0
  IsCompleted a = of_request id a ≡ true → is_null a.completed_at ≡ false

  -- It is, or it is attempt n.
  abbrev pub IsCompletedBut : ℕ → AttemptRow → Type 0
  IsCompletedBut n a = of_request id a ≡ true → is_null a.completed_at ≡ true → a.number ≡ n

  abbrev pub IsEnded : RequestRow → Type 0
  IsEnded r =
      has_id id r ≡ true → (is_in_progress r.status ≡ false) × (is_null r.completed_at ≡ false)

  -- The rows of the other requests are the same.
  abbrev pub SameOthers : Log → Log → Type 0
  SameOthers l l' =
      (where_ (λ r. not (has_id id r)) l'.requests ≡ where_ (λ r. not (has_id id r)) l.requests)
      × (where_ (λ a. not (of_request id a)) l'.attempts
          ≡ where_ (λ a. not (of_request id a)) l.attempts)

module _ (d : Details) where
  abbrev is_attempt : ℕ → AttemptRow → Bool
  is_attempt m a = of_request d.request.id a && a.number == m

  abbrev ended_attempt : ℕ → ℕ → Option ℕ → Bool → ErrorCategory → AttemptRow → AttemptRow
  ended_attempt i m status succeeded category =
      finished_attempt status succeeded category (d.usage i) (d.started m) (d.time i)

  abbrev ended_request : ℕ → Status → Option ℕ → ErrorCategory → RequestRow → RequestRow
  ended_request i status http_status category =
      finished_request (status_of status) http_status category (d.usage i) d.ttft_ms d.upstream_ms
        d.served d.request.started_at (d.time i)

  pub finish_attempt-Stands :
      (i m : ℕ) (status : Option ℕ) (succeeded : Bool) (category : ErrorCategory) (l : Log)
      → IsPresent d.request.id l
      → All (IsCompletedBut d.request.id m) l.attempts
      → (IsPresent d.request.id (record_event d i (attempt_finished m status succeeded category) l)
          × All
              (IsCompleted d.request.id)
              (record_event d i (attempt_finished m status succeeded category) l).attempts)
        × SameOthers d.request.id l
            (record_event d i (attempt_finished m status succeeded category) l)
  unfolding record_event finish_attempt
  finish_attempt-Stands i m status succeeded category l present a = (
    (
      present,
      All-update_where (IsCompletedBut d.request.id m) (IsCompleted d.request.id) (is_attempt m)
          (ended_attempt i m status succeeded category) (λ x _ _ _. refl)
          (λ x but e own. elim (Bool-cases (is_null x.completed_at)) [
            | inl open_ ↦
                let same : (x.number == m) ≡ true = ground (arith, but own open_) in
                absurd (ground (arith, e, own, same))
            | inr done ↦ done
          ])
          l.attempts a,
    ),
    (
      refl,
      where_-update_where (of_request d.request.id) (is_attempt m)
          (ended_attempt i m status succeeded category) (λ x e. ground (arith, e)) (λ x. refl)
          l.attempts,
    ),
  )

  pub finish_request-Stands :
      (i : ℕ) (status : Status) (http_status : Option ℕ) (category : ErrorCategory) (l : Log)
      → IsPresent d.request.id l
      → All (IsCompleted d.request.id) l.attempts
      → (IsPresent d.request.id (record_event d i (request_finished status http_status category) l)
          × All
              (IsCompleted d.request.id)
              (record_event d i (request_finished status http_status category) l).attempts
          × All
              (IsEnded d.request.id)
              (record_event d i (request_finished status http_status category) l).requests)
        × SameOthers d.request.id l
            (record_event d i (request_finished status http_status category) l)
  unfolding record_event finish_request
  finish_request-Stands i status http_status category l present a = (
    (
      any-update_where (has_id d.request.id) (has_id d.request.id)
            (ended_request i status http_status category) (λ x. refl) l.requests
          ∙ present,
      a,
      All-update_where (λ r. r ≡ r) (IsEnded d.request.id) (has_id d.request.id)
          (ended_request i status http_status category) (λ x _ _ _. (status_ends status, refl))
          (λ x _ e own. absurd (none-ne-some-bool e own)) l.requests
          (All-of (λ r. r ≡ r) (λ r. refl) l.requests),
    ),
    (
      where_-update_where (has_id d.request.id) (has_id d.request.id)
          (ended_request i status http_status category) (λ x e. e) (λ x. refl) l.requests,
      refl,
    ),
  )
    where
      none-ne-some-bool : {b : Bool} → b ≡ false → b ≡ true → ⊥
      none-ne-some-bool e f = cc

      status_ends : (s : Status) → is_in_progress (status_of s) ≡ false
      status_ends Status.success = refl
      status_ends Status.error = refl

  pub start_attempt-Stands :
      (i n provider key : ℕ) (l : Log)
      → IsPresent d.request.id l
      → All (IsCompleted d.request.id) l.attempts
      → (IsPresent d.request.id (record_event d i (attempt_started n provider key) l)
          × All
              (IsCompletedBut d.request.id n)
              (record_event d i (attempt_started n provider key) l).attempts)
        × SameOthers d.request.id l (record_event d i (attempt_started n provider key) l)
  unfolding record_event start_attempt insert_attempt
  start_attempt-Stands i n provider key l present a = rw present (
    (
      present,
      All-append (IsCompletedBut d.request.id n) l.attempts _
          (All-imp (IsCompleted d.request.id) (IsCompletedBut d.request.id n)
            (λ x done own open_. absurd (ground (arith, done own, open_))) l.attempts a)
          ((λ _ _. refl), tt),
    ),
    (refl, where_-snoc (of_request d.request.id) l.attempts _ (eq_text_refl d.request.id)),
  )
