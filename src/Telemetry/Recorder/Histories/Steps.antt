-- ===== src/Telemetry/Recorder/Histories/Steps.antt =====
-- Where the reader of Gateway/Attempts/Log stands, and one event more, in the tables of internal/telemetry/telemetry.go.
use pogu.Prelude.{
  ℕ, ◌+◌, ◌≡◌, inl, inr, [], ◌∷◌, some, true, false, ◌&&◌, ◌==◌, All, Text, arith, Bool-cases,
  none-ne-some, some-eq-some, subst,
}
use pogu.Gateway.Errors.{Status}
use pogu.Gateway.Attempts.{Event, attempt_started, attempt_finished, request_finished}
use pogu.Gateway.Attempts.Plan.{Plan}
use pogu.Gateway.Attempts.Log.{Reading, waiting, running, closing, over, read}
use pogu.Telemetry.Recorder.{Log}
use pogu.Telemetry.Recorder.Histories.{Details, record_event}
use pogu.Telemetry.Recorder.Histories.Rows.{
  IsPresent, IsCompleted, IsCompletedBut, IsEnded, SameOthers, finish_attempt-Stands,
  finish_request-Stands, start_attempt-Stands,
}

module _ (id : Text) where
  -- The tables where a reader of the events stands.
  abbrev pub Stands : Log → Reading → Type 0
  Stands l (waiting n) = IsPresent id l × All (IsCompleted id) l.attempts
  Stands l (running n) = IsPresent id l × All (IsCompletedBut id n) l.attempts
  Stands l closing = IsPresent id l × All (IsCompleted id) l.attempts
  Stands l over = IsPresent id l × All (IsCompleted id) l.attempts × All (IsEnded id) l.requests

module _ (d : Details) where
  abbrev Moves : ℕ → Event → Log → Plan × Reading → Type 0
  Moves i e l r =
      Stands d.request.id (record_event d i e l) r.1
      × SameOthers d.request.id l (record_event d i e l)

  moves :
      (i : ℕ) (e : Event) (l : Log) (q r : Plan × Reading)
      → some q ≡ some r
      → Moves i e l q
      → Moves i e l r
  moves i e l q r same m = subst (Moves i e l) (some-eq-some same) m

  -- One event that the reader accepts.
  pub record_event-Stands :
      (i : ℕ) (e : Event) (l : Log) (r r' : Plan × Reading)
      → read e r ≡ some r'
      → Stands d.request.id l r.1
      → Moves i e l r'
  unfolding read
  record_event-Stands i (attempt_started m p k) l ((p', k') ∷ cs, waiting n) r' h (present, a) =
      elim (Bool-cases (m == n + 1 && p == p' && k == k')) [
        | inl same ↦
            moves i _ l (cs, running m) r' (rw (same, read) at h)
              (start_attempt-Stands d i m p k l present a)
        | inr other ↦ absurd (none-ne-some (rw (other, read) at h))
      ]
  record_event-Stands i (attempt_finished m status true category) l (cs, running n) r' h
        (present, a) =
      elim (Bool-cases (m == n)) [
        | inl same ↦
            let this : n ≡ m = ground (arith, same) in
            moves i _ l (cs, closing) r' (rw (same, read) at h)
              (finish_attempt-Stands d i m status true category l present
                (subst (λ x. All (IsCompletedBut d.request.id x) l.attempts) this a))
        | inr other ↦ absurd (none-ne-some (rw (other, read) at h))
      ]
  record_event-Stands i (attempt_finished m status false category) l (cs, running n) r' h
        (present, a) =
      elim (Bool-cases (m == n)) [
        | inl same ↦
            let this : n ≡ m = ground (arith, same) in
            moves i _ l (cs, waiting n) r' (rw (same, read) at h)
              (finish_attempt-Stands d i m status false category l present
                (subst (λ x. All (IsCompletedBut d.request.id x) l.attempts) this a))
        | inr other ↦ absurd (none-ne-some (rw (other, read) at h))
      ]
  record_event-Stands i (request_finished Status.success status category) l (cs, closing) r' h
        (present, a) =
      moves i _ l (cs, over) r' h
        (finish_request-Stands d i Status.success status category l present a)
  record_event-Stands i (request_finished Status.error status category) l (cs, waiting n) r' h
        (present, a) =
      moves i _ l (cs, over) r' h
        (finish_request-Stands d i Status.error status category l present a)
  record_event-Stands i (attempt_started m p k) l ([], waiting n) r' h s = absurd (none-ne-some h)
  record_event-Stands i (attempt_started m p k) l ([], running n) r' h s = absurd (none-ne-some h)
  record_event-Stands i (attempt_started m p k) l ((p', k') ∷ cs, running n) r' h s =
      absurd (none-ne-some h)
  record_event-Stands i (attempt_started m p k) l ([], closing) r' h s = absurd (none-ne-some h)
  record_event-Stands i (attempt_started m p k) l ((p', k') ∷ cs, closing) r' h s =
      absurd (none-ne-some h)
  record_event-Stands i (attempt_started m p k) l ([], over) r' h s = absurd (none-ne-some h)
  record_event-Stands i (attempt_started m p k) l ((p', k') ∷ cs, over) r' h s =
      absurd (none-ne-some h)
  record_event-Stands i (attempt_finished m status true category) l (cs, waiting n) r' h s =
      absurd (none-ne-some h)
  record_event-Stands i (attempt_finished m status false category) l (cs, waiting n) r' h s =
      absurd (none-ne-some h)
  record_event-Stands i (attempt_finished m status true category) l (cs, closing) r' h s =
      absurd (none-ne-some h)
  record_event-Stands i (attempt_finished m status false category) l (cs, closing) r' h s =
      absurd (none-ne-some h)
  record_event-Stands i (attempt_finished m status true category) l (cs, over) r' h s =
      absurd (none-ne-some h)
  record_event-Stands i (attempt_finished m status false category) l (cs, over) r' h s =
      absurd (none-ne-some h)
  record_event-Stands i (request_finished Status.success status category) l (cs, waiting n) r' h s =
      absurd (none-ne-some h)
  record_event-Stands i (request_finished Status.error status category) l (cs, closing) r' h s =
      absurd (none-ne-some h)
  record_event-Stands i (request_finished Status.success status category) l (cs, running n) r' h s =
      absurd (none-ne-some h)
  record_event-Stands i (request_finished Status.error status category) l (cs, running n) r' h s =
      absurd (none-ne-some h)
  record_event-Stands i (request_finished Status.success status category) l (cs, over) r' h s =
      absurd (none-ne-some h)
  record_event-Stands i (request_finished Status.error status category) l (cs, over) r' h s =
      absurd (none-ne-some h)
