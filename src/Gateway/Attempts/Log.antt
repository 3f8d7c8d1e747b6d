-- ===== src/Gateway/Attempts/Log.antt =====
-- The telemetry of a request against a reader that accepts well-formed histories only.
use pogu.Prelude.{
  ℕ, ◌+◌, ◌<◌, ◌≡◌, inl, inr, refl, sym, ap, ◌∙◌, List, [], ◌∷◌, ◌++◌, append_assoc, Option, none,
  some, true, false, ◌&&◌, ◌||◌, ◌==◌, if◌then◌else◌, arith, length, Bool-cases, some-eq-some,
  none-ne-some, Option-cases,
}
use pogu.Store.{KeyRow}
use pogu.Service.Routing.{Target}
use pogu.Gateway.Errors.{
  Cause, ProxyError, upstream, plain, wraps, is_canceled, is_context_error, success, error,
}
use pogu.Gateway.Attempts.{
  Outcome, no_secret, proxied, Event, attempt_started, attempt_finished, request_finished, Progress,
  Verdict, retry, answered, after_call, chain, attempt, begin, conclude, first_start, is_committed,
  failover_status, route_request, finish_committed_or_canceled, after_error, start_event,
}
use pogu.Gateway.Attempts.Plan.{Plan, plan, plan_keys, try_plan, try_targets-plan}

-- Where the reader stands: no attempt is open and n have finished without success; attempt n is open;
-- the last attempt succeeded; the request is finished.
pub data Reading : Type 0 where
  waiting running : ℕ → Reading
  closing over : Reading

-- One event: attempts are numbered in order from 1, start on the next provider and key of the plan,
-- and finish before anything else happens; the request finishes once, when no attempt is open,
-- in success exactly if its last attempt did.
unfoldable pub read : Event → Plan × Reading → Option (Plan × Reading)
read (attempt_started m p k) ((p', k') ∷ cs, waiting n) =
    if m == n + 1 && p == p' && k == k' then some (cs, running m) else none
read (attempt_finished m status true category) (cs, running n) =
    if m == n then some (cs, closing) else none
read (attempt_finished m status false category) (cs, running n) =
    if m == n then some (cs, waiting n) else none
read (request_finished success status category) (cs, closing) = some (cs, over)
read (request_finished error status category) (cs, waiting n) = some (cs, over)
read _ _ = none

unfoldable pub read_all : List Event → Plan × Reading → Option (Plan × Reading)
unfolding read
read_all [] r = some r
read_all (e ∷ es) r = elim (read e r) [ none ↦ none | some r' ↦ read_all es r' ]

read_all-append :
    (es es' : List Event) (r r' : Plan × Reading)
    → read_all es r ≡ some r'
    → read_all (es ++ es') r ≡ read_all es' r'
unfolding read_all
read_all-append [] es' r r' h = ap (read_all es') (some-eq-some h)
read_all-append (e ∷ es) es' r r' h = next (read_all-append es es') (read e r) refl
  where
    next :
        ((q q' : Plan × Reading)
          → read_all es q ≡ some q'
          → read_all (es ++ es') q ≡ read_all es' q')
        → (o : Option (Plan × Reading)) → read e r ≡ o
        → read_all (e ∷ es ++ es') r ≡ read_all es' r'
    next ih none x = absurd (none-ne-some (sym (rw (x, read_all)) ∙ h))
    next ih (some q) x = rw (x, read_all) (ih q r' (rw (x, read_all) at h))

-- What one attempt leaves behind, from where it is open.
abbrev Closes : ℕ → Plan → List Event × Verdict → Type 0
Closes n cs (es, answered reply) = read_all es (cs, running n) ≡ some (cs, over)
Closes n cs (es, retry p) =
    (read_all es (cs, running n) ≡ some (cs, waiting n)) × (p.attempt_num ≡ n)

committed-Closes :
    (n : ℕ) (cs : Plan) (e : ProxyError) (committed : Option ℕ)
    → read_all (finish_committed_or_canceled n e committed) (cs, running n) ≡ some (cs, over)
unfolding read_all finish_committed_or_canceled
committed-Closes n cs (plain c) committed = ground arith
committed-Closes n cs (upstream status message cause) committed = ground arith

after_error-Closes :
    (p : Progress) (n : ℕ) (cs : Plan) (e : ProxyError) (committed : Option ℕ) (ctx : Option Cause)
    → Closes n cs (after_error p n e committed ctx)
unfolding after_error read_all
after_error-Closes p n cs e committed ctx =
    elim (Bool-cases (is_committed committed || wraps is_canceled e || is_context_error e ctx)) [
      | inl ended ↦ rw (ended, after_error) (committed-Closes n cs e committed)
      | inr open_ ↦ elim (Option-cases (failover_status e)) [
        | inl no_failover ↦ rw (open_, no_failover, after_error) (ground arith)
        | inr (status, failover) ↦ rw (open_, failover, after_error) (ground arith)
      ]
    ]

after_call-Closes :
    (p : Progress) (n : ℕ) (cs : Plan) (o : Outcome) → Closes n cs (after_call p n o)
unfolding after_call read_all
after_call-Closes p n cs (no_secret c) = ground arith
after_call-Closes p n cs (proxied committed none ctx) = ground arith
after_call-Closes p n cs (proxied committed (some e) ctx) =
    after_error-Closes p n cs e committed ctx

-- Where the reader stands behind part of the loop that began with the plan `cs`.
abbrev Read : Plan × Reading → List Event × Verdict → Type 0
Read r (es, answered reply) = (rest : Plan) × (read_all es r ≡ some (rest, over))
Read r (es, retry p) = read_all es r ≡ some ([], waiting p.attempt_num)

-- The rest of the loop behind an attempt.
chain-Read :
    (r : Plan × Reading) (n : ℕ) (cs : Plan) (start : List Event) (m : List Event × Verdict)
    (f : Progress → List Event × Verdict)
    → read_all start r ≡ some (cs, running n)
    → Closes n cs m
    → ((p : Progress) → p.attempt_num ≡ n → Read (cs, waiting n) (f p))
    → Read r (chain (start ++ m.0, m.1) f)
unfolding chain
chain-Read r n cs start (es, answered reply) f s c later = (cs, read_all-append start es r _ s ∙ c)
chain-Read r n cs start (es, retry p) f s (c, num) later = joined (f p) (later p num)
  where
    whole : read_all (start ++ es) r ≡ some (cs, waiting n)
    whole = read_all-append start es r _ s ∙ c

    joined :
        (m : List Event × Verdict) → Read (cs, waiting n) m → Read r ((start ++ es) ++ m.0, m.1)
    joined (es', answered reply) (rest, e) = (rest, read_all-append (start ++ es) es' r _ whole ∙ e)
    joined (es', retry q) e = read_all-append (start ++ es) es' r _ whole ∙ e

started :
    (n provider_id key_id : ℕ) (cs : Plan)
    → 0 < n
    → read_all (start_event (n + 1) provider_id key_id) ((provider_id, key_id) ∷ cs, waiting n)
      ≡ some (cs, running (n + 1))
unfolding start_event read_all
started n provider_id key_id cs h = ground arith

module _ (world : ℕ → Outcome) where
  -- From the second attempt on.
  try_plan-Read :
      (p : Progress) (n : ℕ) (cs : Plan)
      → p.attempt_num ≡ n
      → 0 < n
      → Read (cs, waiting n) (try_plan world p cs)
  unfolding try_plan attempt
  try_plan-Read p n [] e h =
      unfold read_all in ap {B = Option (Plan × Reading)} (λ m. some ([], waiting m)) (sym e)
  try_plan-Read p n ((provider_id, key_id) ∷ cs) e h = rw e (
      chain-Read _ (n + 1) cs (start_event (n + 1) provider_id key_id)
        (after_call p (n + 1) (world (n + 1))) (λ p'. try_plan world p' cs)
        (started n provider_id key_id cs h) (after_call-Closes p (n + 1) cs (world (n + 1)))
        (λ p' e'. try_plan-Read p' (n + 1) cs e' (omega arith)))

  -- The first attempt, which the request's own record has opened.
  first-Read :
      (provider_id key_id : ℕ) (cs : Plan)
      → Read (cs, running 1) (try_plan world begin ((provider_id, key_id) ∷ cs))
  unfolding try_plan attempt
  first-Read provider_id key_id cs =
      chain-Read (cs, running 1) 1 cs [] (after_call begin 1 (world 1)) (λ p'. try_plan world p' cs)
        (unfold read_all in refl) (after_call-Closes begin 1 cs (world 1))
        (λ p' e'. try_plan-Read p' 1 cs e' (omega arith))

conclude-Read :
    (r : Plan × Reading) (targets : ℕ) (es : List Event) (v : Verdict)
    → Read r (es, v)
    → (rest : Plan) × (read_all (es ++ (conclude targets v).0) r ≡ some (rest, over))
unfolding conclude
conclude-Read r targets es (answered reply) (rest, h) =
    (rest, read_all-append es [] r _ h ∙ unfold read_all in refl)
conclude-Read r targets es (retry p) h = ([], read_all-append es _ r _ h ∙ unfold read_all in refl)

route_request_events :
    (world : ℕ → Outcome) (ts : List Target) (cs : Plan)
    → plan ts ≡ cs
    → (route_request world ts).0
      ≡ first_start ts
        ++ (try_plan world begin cs).0
        ++ (conclude (length ts) (try_plan world begin cs).1).0
unfolding route_request
route_request_events world ts cs e =
    ap (λ m. first_start ts ++ m.0 ++ (conclude (length ts) m.1).0)
      (try_targets-plan world begin ts ∙ ap (try_plan world begin) e)

first_start_read :
    (t : Target) (ts : List Target) (k : KeyRow) (ks : List KeyRow) (cs : Plan)
    → t.keys ≡ k ∷ ks
    → read_all (first_start (t ∷ ts)) ((t.route.provider.id, k.id) ∷ cs, waiting 0)
      ≡ some (cs, running 1)
unfolding first_start read_all
first_start_read t ts k ks cs e = rw e (ground arith)

-- The telemetry of every request that has a first key to try is a well-formed history: from the
-- start of attempt 1 on the first provider and key of the plan, the reader accepts every event and
-- ends with the request finished.
pub route_request_logged :
    (world : ℕ → Outcome) (t : Target) (ts : List Target) (k : KeyRow) (ks : List KeyRow)
    → t.keys ≡ k ∷ ks
    → (rest : Plan) × (read_all (route_request world (t ∷ ts)).0 (plan (t ∷ ts), waiting 0)
        ≡ some (rest, over))
route_request_logged world t ts k ks e =
    let (rest, h) =
      conclude-Read (cs, running 1) (length (t ∷ ts)) body.0 body.1
        (first-Read world t.route.provider.id k.id cs) in
    (
      rest,
      rw (route_request_events world (t ∷ ts) _ planned, planned, append_assoc)
          (read_all-append (first_start (t ∷ ts)) _ _ _ (first_start_read t ts k ks cs e) ∙ h),
    )
  where
    cs : Plan
    cs = plan_keys t.route.provider.id ks ++ plan ts

    planned : plan (t ∷ ts) ≡ (t.route.provider.id, k.id) ∷ cs
    planned = ap (λ l. plan_keys t.route.provider.id l ++ plan ts) e

    body : List Event × Verdict
    body = try_plan world begin ((t.route.provider.id, k.id) ∷ cs)

-- The first event is the start of attempt 1 on the first key.
pub route_request_starts :
    (world : ℕ → Outcome) (t : Target) (ts : List Target) (k : KeyRow) (ks : List KeyRow)
    → t.keys ≡ k ∷ ks
    → (es : List Event) × ((route_request world (t ∷ ts)).0
        ≡ attempt_started 1 t.route.provider.id k.id ∷ es)
unfolding first_start
route_request_starts world t ts k ks e = (
  _,
  route_request_events world (t ∷ ts) (plan (t ∷ ts)) refl
      ∙ ap
          (λ l.
            l
            ++ (try_plan world begin (plan (t ∷ ts))).0
            ++ (conclude (length (t ∷ ts)) (try_plan world begin (plan (t ∷ ts))).1).0)
          first,
)
  where
    first : first_start (t ∷ ts) ≡ attempt_started 1 t.route.provider.id k.id ∷ []
    first = rw e refl
