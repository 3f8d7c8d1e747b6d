-- ===== src/Auth/Throttle/Penalty.antt =====
-- How long a client is kept from the next login (internal/httpapi/auth.go).
use pogu.Prelude.{
  ℕ, ◌+◌, ◌-◌, ◌*◌, ◌^◌, ◌≤◌, ◌≡◌, refl, sym, ap, ◌∙◌, subst, List, [], ◌∷◌, none, some, ltb, ◌||◌,
  if◌then◌else◌, Bool-cases, inl, inr, Text, eq_text, eq_text_iff, length, arith,
}
use native.Mathlib.Nat.{pow-le-pow_right}
use pogu.Auth.Throttle.{
  Attempt, Attempts, attempt_of, with_attempt, second, no_attempt, allow_login, backoff, failed,
  evict, record_login_failure,
}

-- The wait behind the n-th failure in a row: none up to the fourth, then a second that doubles, a minute
-- at most.
abbrev pub wait : ℕ → ℕ
wait n = if ltb n 5 then 0 else if ltb n 11 then 2 ^ (n - 5) * second else 60 * second

-- The attempt behind the n-th failure in a row.
abbrev After : ℕ → ℕ → Attempt
After n at = record {
  count = if ltb n 12 then n else 12;
  blocked_until = if ltb n 5 then none else some (at + wait n);
}

backoff_wait : (n : ℕ) → backoff n ≡ (if ltb n 11 then 2 ^ (n - 5) * second else 60 * second)
unfolding backoff
backoff_wait n = elim (Bool-cases (ltb n 11)) [
  | inl few ↦
      let small : 2 ^ (n - 5) ≤ 2 ^ 5 =
        pow-le-pow_right (omega arith) {i = n - 5} {j = 5} (ground (arith, few)) in
      ground (arith, small, few)
  | inr many ↦
      let large : 2 ^ 6 ≤ 2 ^ (n - 5) =
        pow-le-pow_right (omega arith) {i = 6} {j = n - 5} (ground (arith, many)) in
      ground (arith, large, many)
]

failed-After : (n at now : ℕ) → failed now (After n at) ≡ After (n + 1) now
unfolding failed
failed-After n at now = elim (Bool-cases (ltb n 12)) [
  | inl few ↦ ground (arith, few, backoff_wait (n + 1))
  | inr many ↦ ground (arith, many, backoff_wait 13)
]

-- The failures of all clients in a row: the time and the identity of each.
unfoldable pub record_all : Attempts → List (ℕ × Text) → Attempts
unfolding record_login_failure
record_all attempts [] = attempts
record_all attempts ((now, identity) ∷ events) =
    record_all (record_login_failure attempts now identity) events

-- The number and the time of a client's last failure, where it had `n` before, the last `at`.
abbrev pub tally : Text → ℕ → ℕ → List (ℕ × Text) → ℕ × ℕ
tally identity n at [] = (n, at)
tally identity n at ((now, name) ∷ events) =
    if eq_text name identity then tally identity (n + 1) now events else tally identity n at events

attempt_of-with_attempt :
    (identity name : Text) (attempt : Attempt) (xs : Attempts)
    → attempt_of identity (with_attempt name attempt xs)
      ≡ (if eq_text name identity then attempt else attempt_of identity xs)
attempt_of-with_attempt identity name attempt [] = refl
attempt_of-with_attempt identity name attempt ((other, old) ∷ xs) =
    elim (Bool-cases (eq_text other name)) [
      | inl same ↦
          let named : eq_text other identity ≡ eq_text name identity =
            ap (λ x. eq_text x identity) ((eq_text_iff other name).0 same) in
          ground (arith, same, named)
      | inr differ ↦
          let rest = attempt_of-with_attempt identity name attempt xs in
          elim (Bool-cases (eq_text name identity)) [
            | inl mine ↦
                let named : eq_text other name ≡ eq_text other identity =
                  ap (eq_text other) ((eq_text_iff name identity).0 mine) in
                ground (arith, differ, mine, named, rest)
            | inr other ↦ ground (arith, differ, other, rest)
          ]
    ]

length-with_attempt :
    (name : Text) (attempt : Attempt) (xs : Attempts)
    → length (with_attempt name attempt xs) ≤ length xs + 1
length-with_attempt name attempt [] = omega arith
length-with_attempt name attempt ((other, old) ∷ xs) =
    ground (arith, length-with_attempt name attempt xs)

attempt_of-record_all :
    (identity : Text) (n at : ℕ) (attempts : Attempts) (events : List (ℕ × Text))
    → length attempts + length events ≤ 256
    → attempt_of identity attempts ≡ After n at
    → attempt_of identity (record_all attempts events)
      ≡ After (tally identity n at events).0 (tally identity n at events).1
unfolding record_all record_login_failure evict
attempt_of-record_all identity n at attempts [] room h = h
attempt_of-record_all identity n at attempts ((now, name) ∷ events) room h =
    let kept : evict attempts now ≡ attempts = ground (arith, room) in
    let next : Attempts = with_attempt name (failed now (attempt_of name attempts)) attempts in
    let less = length-with_attempt name (failed now (attempt_of name attempts)) attempts in
    let made : record_login_failure attempts now name ≡ next = rw kept in
    subst
      (λ x.
        attempt_of identity (record_all x events)
        ≡ After (tally identity n at ((now, name) ∷ events)).0
            (tally identity n at ((now, name) ∷ events)).1)
      (sym made)
      (elim (Bool-cases (eq_text name identity)) [
        | inl mine ↦
            let same : attempt_of name attempts ≡ After n at =
              ap (λ x. attempt_of x attempts) ((eq_text_iff name identity).0 mine) ∙ h in
            let e : attempt_of identity next ≡ After (n + 1) now = ground (
              arith,
              attempt_of-with_attempt identity name (failed now (attempt_of name attempts))
                  attempts,
              mine,
              same,
              failed-After n at now,
            ) in
            let rest =
              attempt_of-record_all identity (n + 1) now next events (omega (arith, less, room))
                e in
            ground (arith, mine, rest)
        | inr other ↦
            let e : attempt_of identity next ≡ After n at = ground (
              arith,
              attempt_of-with_attempt identity name (failed now (attempt_of name attempts))
                  attempts,
              other,
              h,
            ) in
            let rest =
              attempt_of-record_all identity n at next events (omega (arith, less, room)) e in
            ground (arith, other, rest)
      ])

allow_login-After :
    (attempts : Attempts) (identity : Text) (n at now : ℕ)
    → attempt_of identity attempts ≡ After n at
    → allow_login attempts now identity ≡ (ltb n 5 || ltb (at + wait n) now)
unfolding allow_login
allow_login-After attempts identity n at now h = ground (arith, h)

-- Where entries and failures are 256 at most, so that nothing is cleaned up, a client that had no failure before may log in unless
-- five or more of the failures are its own and the wait that belongs to their number is not over, counted
-- from the last of them: a second for the fifth, doubled with each further one, a minute at most.
pub allow_login-record_all :
    (attempts : Attempts) (events : List (ℕ × Text)) (identity : Text) (now : ℕ)
    → length attempts + length events ≤ 256
    → attempt_of identity attempts ≡ no_attempt
    → allow_login (record_all attempts events) now identity
      ≡ (let (n, last) = tally identity 0 0 events in ltb n 5 || ltb (last + wait n) now)
allow_login-record_all attempts events identity now room h =
    allow_login-After (record_all attempts events) identity (tally identity 0 0 events).0
      (tally identity 0 0 events).1 now (attempt_of-record_all identity 0 0 attempts events room h)
