-- ===== src/Telemetry/Recorder/Reaping.antt =====
-- ReapStale of internal/telemetry/monitoring.go: what a start finds open is closed.
use pogu.Prelude.{
  ℕ, suc, zero, ◌≡◌, refl, List, [], ◌∷◌, some, Bool, true, false, ◌&&◌, any, update_where,
  get_elem?, All, eq_text, arith, Bool-cases, inl, inr,
}
use pogu.Telemetry.{RequestRow, AttemptRow}
use pogu.Telemetry.Recorder.{
  Log, is_null, is_in_progress, is_reaped, reaped, reaped_attempt, reap_requests, reap_stale,
}

-- The request of the attempt is in progress.
abbrev pub is_running : List RequestRow → AttemptRow → Bool
is_running requests a = any (λ r. is_in_progress r.status && eq_text r.id a.request_id) requests

reap_requests-status :
    (ts : ℕ) (rows : List RequestRow)
    → All (λ r. is_in_progress r.status ≡ false) (reap_requests ts rows)
unfolding reap_requests
reap_requests-status ts [] = tt
reap_requests-status ts (r ∷ rows) = elim (Bool-cases (is_in_progress r.status)) [
  | inl e ↦ rw e (refl, reap_requests-status ts rows)
  | inr e ↦ rw e (e, reap_requests-status ts rows)
]

-- The requests that were in progress are those that the second statement looks for, at least.
is_running-reaped :
    (ts : ℕ) (rows : List RequestRow) (a : AttemptRow)
    → is_running rows a ≡ true
    → any (λ r. is_reaped ts r && eq_text r.id a.request_id) (reap_requests ts rows) ≡ true
unfolding reap_requests
is_running-reaped ts [] a h = cc
is_running-reaped ts (r ∷ rows) a h = elim (Bool-cases (is_in_progress r.status)) [
  | inl e ↦ rw e (ground (arith, e, h, is_running-reaped ts rows a))
  | inr e ↦ rw e (ground (arith, e, h, is_running-reaped ts rows a))
]

-- An attempt behind the second statement, where `requests` are the rows behind the first.
reaped_attempts-Closed :
    (ts : ℕ) (old : List RequestRow) (attempts : List AttemptRow)
    → All
        (λ a. is_running old a ≡ true → is_null a.completed_at ≡ false)
        (update_where
          (λ a.
            is_null a.completed_at
            && any (λ r. is_reaped ts r && eq_text r.id a.request_id) (reap_requests ts old))
          (reaped_attempt ts)
          attempts)
reaped_attempts-Closed ts old [] = tt
reaped_attempts-Closed ts old (a ∷ attempts) =
    elim (Bool-cases (
      is_null a.completed_at
      && any (λ r. is_reaped ts r && eq_text r.id a.request_id) (reap_requests ts old))) [
        | inl e ↦ rw e ((λ h. refl), reaped_attempts-Closed ts old attempts)
        | inr e ↦ rw e (
          (λ h. ground (arith, e, is_running-reaped ts old a h)),
          reaped_attempts-Closed ts old attempts,
        )
      ]

update_where-other :
    {A : Type 0} (p : A → Bool) (f : A → A) (xs : List A) (i : ℕ) (x : A)
    → get_elem? xs i ≡ some x
    → p x ≡ false
    → get_elem? (update_where p f xs) i ≡ some x
update_where-other p f [] i x h e = h
update_where-other p f (y ∷ xs) zero x h e = ground (arith, h, e)
update_where-other p f (y ∷ xs) (suc i) x h e = update_where-other p f xs i x h e

-- Behind ReapStale no request is in progress, and each attempt of a request that was is completed; a request that was
-- not in progress and an attempt that was completed stand in their places unchanged.
pub reap_stale-Closed :
    (ts : ℕ) (l : Log)
    → All (λ r. is_in_progress r.status ≡ false) (reap_stale ts l).requests
      × All
          (λ a. is_running l.requests a ≡ true → is_null a.completed_at ≡ false)
          (reap_stale ts l).attempts
      × ((i : ℕ) (r : RequestRow)
          → get_elem? l.requests i ≡ some r
          → is_in_progress r.status ≡ false
          → get_elem? (reap_stale ts l).requests i ≡ some r)
      × ((i : ℕ) (a : AttemptRow)
          → get_elem? l.attempts i ≡ some a
          → is_null a.completed_at ≡ false
          → get_elem? (reap_stale ts l).attempts i ≡ some a)
unfolding reap_stale
reap_stale-Closed ts l = (
  reap_requests-status ts l.requests,
  reaped_attempts-Closed ts l.requests l.attempts,
  update_where-other (λ r. is_in_progress r.status) (reaped ts) l.requests,
  λ i a h e. update_where-other _ (reaped_attempt ts) l.attempts i a h (rw e refl),
)
