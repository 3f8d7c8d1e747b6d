-- ===== src/Auth/Throttle/Reopening.antt =====
-- When a client may log in again (internal/httpapi/auth.go).
use pogu.Prelude.{
  ℕ, ◌+◌, ◌*◌, ◌≤◌, ◌<◌, ◌≡◌, refl, List, [], ◌∷◌, none, some, Bool, true, false, leb,
  if◌then◌else◌, Text, eq_text, length, arith, All, All-where_, not,
}
use pogu.Auth.Throttle.Penalty.{record_all}
use pogu.Auth.Throttle.{
  Attempt, Attempts, attempt_of, with_attempt, second, max_attempts, allow_login, backoff, failed,
  block_is_over, evict, record_login_failure,
}

-- The block of an attempt ends within a minute behind a time.
abbrev EndsBy : ℕ → Attempt → Type 0
EndsBy latest attempt =
    elim attempt.blocked_until [ none ↦ true | some at ↦ leb at (latest + 60 * second) ] ≡ true

backoff_le : (count : ℕ) → backoff count ≤ 60 * second
unfolding backoff
backoff_le count = ground arith

failed-EndsBy :
    (latest now : ℕ) (attempt : Attempt)
    → now ≤ latest
    → EndsBy latest attempt
    → EndsBy latest (failed now attempt)
unfolding failed
failed-EndsBy latest now attempt h ends = ground (arith, h, ends, backoff_le (attempt.count + 1))

attempt_of-EndsBy :
    (latest : ℕ) (identity : Text) (xs : Attempts)
    → All (λ e. EndsBy latest e.1) xs
    → EndsBy latest (attempt_of identity xs)
attempt_of-EndsBy latest identity [] h = refl
attempt_of-EndsBy latest identity ((name, attempt) ∷ xs) h =
    ground (arith, h.0, attempt_of-EndsBy latest identity xs h.1)

All-if {ℓ} :
    {A : Type ℓ} (P : A → Type 0) (b : Bool) (xs ys : List A)
    → All P xs
    → All P ys
    → All P (if b then xs else ys)
All-if P true xs ys h h' = h
All-if P false xs ys h h' = h'

with_attempt-EndsBy :
    (latest : ℕ) (identity : Text) (attempt : Attempt) (xs : Attempts)
    → EndsBy latest attempt
    → All (λ e. EndsBy latest e.1) xs
    → All (λ e. EndsBy latest e.1) (with_attempt identity attempt xs)
with_attempt-EndsBy latest identity attempt [] h hs = (h, tt)
with_attempt-EndsBy latest identity attempt ((name, old) ∷ xs) h hs =
    All-if (λ e. EndsBy latest e.1) (eq_text name identity) _ _ (h, hs.1)
      (hs.0, with_attempt-EndsBy latest identity attempt xs h hs.1)

evict-EndsBy :
    (latest now : ℕ) (xs : Attempts)
    → All (λ e. EndsBy latest e.1) xs
    → All (λ e. EndsBy latest e.1) (evict xs now)
unfolding evict
evict-EndsBy latest now xs hs =
    All-if (λ e. EndsBy latest e.1) (leb max_attempts (length xs)) _ _
      (All-where_ (λ e. EndsBy latest e.1) (λ e. not (block_is_over now e.1)) xs hs) hs

record-EndsBy :
    (latest now : ℕ) (identity : Text) (xs : Attempts)
    → now ≤ latest
    → All (λ e. EndsBy latest e.1) xs
    → All (λ e. EndsBy latest e.1) (record_login_failure xs now identity)
unfolding record_login_failure
record-EndsBy latest now identity xs h hs =
    with_attempt-EndsBy latest identity (failed now (attempt_of identity (evict xs now)))
      (evict xs now)
      (failed-EndsBy latest now (attempt_of identity (evict xs now)) h
        (attempt_of-EndsBy latest identity (evict xs now) (evict-EndsBy latest now xs hs)))
      (evict-EndsBy latest now xs hs)

record_all-EndsBy :
    (latest : ℕ) (xs : Attempts) (events : List (ℕ × Text))
    → All (λ e. e.0 ≤ latest) events
    → All (λ e. EndsBy latest e.1) xs
    → All (λ e. EndsBy latest e.1) (record_all xs events)
unfolding record_all
record_all-EndsBy latest xs [] h hs = hs
record_all-EndsBy latest xs ((now, identity) ∷ events) h hs =
    record_all-EndsBy latest (record_login_failure xs now identity) events h.1
      (record-EndsBy latest now identity xs h.0 hs)

-- However many failures there were, from however many clients, and whatever was cleaned up, every client may
-- log in again once a minute has passed since the latest of them.
pub login_reopens :
    (events : List (ℕ × Text)) (latest now : ℕ) (identity : Text)
    → All (λ e. e.0 ≤ latest) events
    → latest + 60 * second < now
    → allow_login (record_all [] events) now identity ≡ true
unfolding allow_login
login_reopens events latest now identity h over = ground (
  arith,
  over,
  attempt_of-EndsBy latest identity (record_all [] events)
      (record_all-EndsBy latest [] events h tt),
)
