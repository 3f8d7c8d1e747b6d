-- ===== src/Auth/Throttle.antt =====
-- The throttle of the logins (allowLogin, recordLoginFailure, clearLoginFailures of internal/httpapi/auth.go).
-- Times are nanoseconds, and a call reads the clock once. The map loginAttempts is an association list;
-- the identity of a client is the host of its address.
pub mod Penalty
pub mod Reopening
use pogu.Prelude.{
  ℕ, ◌+◌, ◌-◌, ◌*◌, ◌^◌, List, [], ◌∷◌, Option, none, some, Bool, true, false, ◌&&◌, not, ltb, leb,
  if◌then◌else◌, Text, eq_text, length, where_,
}

-- The zero time is none.
pub record Attempt : Type 0 where
  pub count : ℕ
  pub blocked_until : Option ℕ

abbrev pub Attempts : Type 0
Attempts = List (Text × Attempt)

abbrev pub no_attempt : Attempt
no_attempt = record { count = 0; blocked_until = none }

abbrev pub max_attempts : ℕ
max_attempts = 256

abbrev pub second : ℕ
second = 1000000000

-- The zero value where the identity is not in the map.
abbrev pub attempt_of : Text → Attempts → Attempt
attempt_of identity [] = no_attempt
attempt_of identity ((name, attempt) ∷ rest) =
    if eq_text name identity then attempt else attempt_of identity rest

abbrev pub with_attempt : Text → Attempt → Attempts → Attempts
with_attempt identity attempt [] = (identity, attempt) ∷ []
with_attempt identity attempt ((name, old) ∷ rest) =
    let behind = with_attempt identity attempt rest in
    if eq_text name identity then (name, attempt) ∷ rest else (name, old) ∷ behind

-- !at.BlockedUntil.IsZero() && time.Now().After(at.BlockedUntil)
abbrev pub block_is_over : ℕ → Attempt → Bool
block_is_over now attempt = elim attempt.blocked_until [ none ↦ false | some at ↦ ltb at now ]

unfoldable pub allow_login : Attempts → ℕ → Text → Bool
allow_login attempts now identity = elim (attempt_of identity attempts).blocked_until [
  | none ↦ true
  | some at ↦ ltb at now
]

-- At most a minute.
unfoldable pub backoff : ℕ → ℕ
backoff count =
    let shifted = 2 ^ (count - 5) * second in
    if ltb (60 * second) shifted then 60 * second else shifted

-- The attempt behind a failure.
unfoldable pub failed : ℕ → Attempt → Attempt
unfolding backoff
failed now attempt =
    let count = attempt.count + 1 in
    record {
      count = if ltb 12 count then 12 else count;
      blocked_until = if leb 5 count then some (now + backoff count) else attempt.blocked_until;
    }

unfoldable pub evict : Attempts → ℕ → Attempts
evict attempts now =
    if leb max_attempts (length attempts)
    then where_ (λ entry. not (block_is_over now entry.1)) attempts
    else attempts

unfoldable pub record_login_failure : Attempts → ℕ → Text → Attempts
unfolding evict failed
record_login_failure attempts now identity =
    let kept = evict attempts now in
    with_attempt identity (failed now (attempt_of identity kept)) kept

unfoldable pub clear_login_failures : Attempts → Text → Attempts
clear_login_failures attempts identity = where_ (λ entry. not (eq_text entry.0 identity)) attempts
