-- ===== src/Telemetry/Recorder/Histories/Closed.antt =====
-- The events of a whole request (internal/httpapi/gateway.go) in the tables of internal/telemetry/telemetry.go.
use pogu.Prelude.{
  eq_text_refl, ℕ, ◌+◌, ◌≡◌, refl, sym, ◌∙◌, inl, inr, List, [], ◌∷◌, some, false, ◌&&◌, ◌==◌, any,
  All, All-append, Text, arith, Bool-cases, Option-cases, none-ne-some, some-eq-some, subst,
}
use pogu.Store.{KeyRow}
use pogu.Service.Routing.{Target}
use pogu.Gateway.Attempts.{Outcome, Event, attempt_started, route_request}
use pogu.Gateway.Attempts.Plan.{Plan, plan}
use pogu.Gateway.Attempts.Log.{
  Reading, waiting, running, over, read, read_all, route_request_logged, route_request_starts,
}
use pogu.Telemetry.{AttemptRow}
use pogu.Telemetry.Recorder.{Log, has_id, of_request, insert_attempt, start_request, new_request}
use pogu.Telemetry.Recorder.Histories.{
  Details, or_unchanged, attempt_row, record_event, record_events, record_request,
}
use pogu.Telemetry.Recorder.Histories.Rows.{
  IsPresent, IsCompleted, IsCompletedBut, IsEnded, SameOthers, any-snoc, where_-snoc,
}
use pogu.Telemetry.Recorder.Histories.Steps.{Stands, record_event-Stands}

module _ (d : Details) where
  SameOthers-trans :
      (l l' l'' : Log)
      → SameOthers d.request.id l l'
      → SameOthers d.request.id l' l''
      → SameOthers d.request.id l l''
  SameOthers-trans l l' l'' a b = (b.0 ∙ a.0, b.1 ∙ a.1)

  record_events-Stands :
      (es : List Event) (i : ℕ) (l : Log) (r r' : Plan × Reading)
      → read_all es r ≡ some r'
      → Stands d.request.id l r.1
      → Stands d.request.id (record_events d i es l) r'.1
        × SameOthers d.request.id l (record_events d i es l)
  unfolding read_all record_events
  record_events-Stands [] i l r r' h s =
      (subst (λ q. Stands d.request.id l q.1) (some-eq-some h) s, (refl, refl))
  record_events-Stands (e ∷ es) i l r r' h s = elim (Option-cases (read e r)) [
    | inl stop ↦ absurd (none-ne-some (rw (stop, read_all) at h))
    | inr (q, x) ↦
        let (one, others) = record_event-Stands d i e l r q x s in
        let (all, others') =
          record_events-Stands es (i + 1) (record_event d i e l) q r' (rw (x, read_all) at h) one in
        (
          all,
          SameOthers-trans l (record_event d i e l)
              (record_events d (i + 1) es (record_event d i e l)) others others',
        )
  ]

  -- The start, where no row has the id.
  start_request-Stands :
      (provider key : ℕ) (l : Log)
      → any (has_id d.request.id) l.requests ≡ false
      → any (of_request d.request.id) l.attempts ≡ false
      → Stands d.request.id
          (or_unchanged l (start_request d.request (attempt_row d 1 provider key) l))
          (running 1)
        × SameOthers d.request.id l
            (or_unchanged l (start_request d.request (attempt_row d 1 provider key) l))
  unfolding start_request insert_attempt
  start_request-Stands provider key l new none_yet =
      rw
        (
          new,
          any-snoc (has_id d.request.id) l.requests (new_request d.request)
              (eq_text_refl d.request.id),
        )
        (
          (
            any-snoc (has_id d.request.id) l.requests (new_request d.request)
                (eq_text_refl d.request.id),
            All-append (IsCompletedBut d.request.id 1) l.attempts _ (untouched l.attempts none_yet)
                ((λ _ _. refl), tt),
          ),
          (
            where_-snoc (has_id d.request.id) l.requests (new_request d.request)
                (eq_text_refl d.request.id),
            where_-snoc (of_request d.request.id) l.attempts _ (eq_text_refl d.request.id),
          ),
        )
    where
      untouched :
          (xs : List AttemptRow)
          → any (of_request d.request.id) xs ≡ false
          → All (IsCompletedBut d.request.id 1) xs
      untouched [] e = tt
      untouched (x ∷ xs) e =
          ((λ own _. absurd (ground (arith, e, own))), untouched xs (ground (arith, e)))

-- The request is recorded to its end, and nothing else is touched.
abbrev pub IsClosed : Text → Log → Log → Type 0
IsClosed id l l' =
    IsPresent id l'
    × All (IsCompleted id) l'.attempts
    × All (IsEnded id) l'.requests
    × SameOthers id l l'

-- A start that the reader accepts leaves it where the attempt runs.
started_read :
    (es : List Event) (m p k : ℕ) (cs : Plan) (r : Plan × Reading)
    → read_all (attempt_started m p k ∷ es) (cs, waiting 0) ≡ some r
    → (cs' : Plan) × (read_all es (cs', running m) ≡ some r)
unfolding read_all read
started_read es m p k [] r h = absurd (none-ne-some h)
started_read es m p k ((p', k') ∷ cs) r h = elim (Bool-cases (m == 0 + 1 && p == p' && k == k')) [
  | inl same ↦ (cs, rw (same, read_all) at h)
  | inr other ↦ absurd (none-ne-some (rw (other, read_all) at h))
]

-- Behind a request that has a first key to try, however its attempts end: where no row had its id, its row is there, and
-- every row of that id is no longer in progress and is completed; every attempt of it is completed; and the rows of the
-- other requests and their attempts are the same.
pub route_request-IsClosed :
    (d : Details) (world : ℕ → Outcome) (t : Target) (ts : List Target) (k : KeyRow)
    (ks : List KeyRow) (l : Log)
    → t.keys ≡ k ∷ ks
    → any (has_id d.request.id) l.requests ≡ false
    → any (of_request d.request.id) l.attempts ≡ false
    → IsClosed d.request.id l (record_request d (route_request world (t ∷ ts)).0 l)
unfolding record_request
route_request-IsClosed d world t ts k ks l e new none_yet =
    let (es, starts) = route_request_starts world t ts k ks e in
    let (rest, logged) = route_request_logged world t ts k ks e in
    subst (λ events. IsClosed d.request.id l (record_request d events l)) (sym starts)
      (shut es (plan (t ∷ ts)) rest (
        subst (λ events. read_all events (plan (t ∷ ts), waiting 0) ≡ some (rest, over)) starts
          logged))
  where
    first : Log
    first = or_unchanged l (start_request d.request (attempt_row d 1 t.route.provider.id k.id) l)

    shut :
        (es : List Event) (cs rest : Plan)
        → read_all (attempt_started 1 t.route.provider.id k.id ∷ es) (cs, waiting 0)
          ≡ some (rest, over)
        → IsClosed d.request.id l
            (record_request d (attempt_started 1 t.route.provider.id k.id ∷ es) l)
    shut es cs rest h =
        let (cs', h') = started_read es 1 t.route.provider.id k.id cs (rest, over) h in
        let (stands, others) = start_request-Stands d t.route.provider.id k.id l new none_yet in
        let (all, others') =
          record_events-Stands d es 1 first (cs', running 1) (rest, over) h' stands in
        (
          all.0,
          all.1,
          all.2,
          SameOthers-trans d l first (record_events d 1 es first) others others',
        )
