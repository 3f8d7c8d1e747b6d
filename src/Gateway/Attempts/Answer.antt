-- ===== src/Gateway/Attempts/Answer.antt =====
-- Which attempt answers the client, and with what.
use native.Mathlib.Decide.{dec_lt}
use pogu.Prelude.{
  ℕ, suc, ◌+◌, ◌≤◌, ◌<◌, ◌≡◌, ◌⊎◌, inl, inr, refl, ap, ◌∙◌, List, [], ◌∷◌, none, some, true, false,
  ◌&&◌, ◌==◌, ltb, if◌then◌else◌, arith, length, Bool-cases,
}
use pogu.Service.Routing.{Target}
use pogu.Gateway.Errors.{upstream, plain, Message, status_message}
use pogu.Gateway.Attempts.{
  Outcome, no_secret, proxied, Event, Reply, failed, Progress, Verdict, retry, answered, after_call,
  chain, attempt, begin, conclude, route_request,
}
use pogu.Gateway.Attempts.Plan.{
  Plan, plan, try_plan, try_targets-plan, retried, answer_of, status_of, or_else, last_status,
}

module _ (p : Progress) (n : ℕ) where
  after_call-retried :
      (o : Outcome)
      → retried o ≡ true
      → (p' : Progress) × ((after_call p n o).1 ≡ retry p')
        × (p'.attempt_num ≡ n)
        × (p'.last_http_status ≡ or_else (status_of o) p.last_http_status)
  unfolding after_call retried status_of
  after_call-retried (no_secret c) h = (_, refl, refl, refl)
  after_call-retried (proxied none (some (upstream status message cause)) ctx) h = (
    record {
      attempt_num = n;
      last_proxy_err = some (upstream status message cause);
      last_http_status = status;
    },
    ground arith,
    refl,
    refl,
  )
  after_call-retried (proxied none (some (plain c)) ctx) h = absurd (ground arith)
  after_call-retried (proxied none none ctx) h = absurd (ground arith)
  after_call-retried (proxied (some s) e ctx) h = absurd (ground arith)

  after_call-answered :
      (o : Outcome) → retried o ≡ false → (after_call p n o).1 ≡ answered (answer_of o)
  unfolding after_call retried answer_of
  after_call-answered (no_secret c) h = absurd (ground arith)
  after_call-answered (proxied none (some (upstream status message cause)) ctx) h = ground arith
  after_call-answered (proxied none (some (plain c)) ctx) h = ground arith
  after_call-answered (proxied none none ctx) h = refl
  after_call-answered (proxied (some s) none ctx) h = refl
  after_call-answered (proxied (some s) (some e) ctx) h = refl

chain-retry :
    (m : List Event × Verdict) (f : Progress → List Event × Verdict) (p : Progress)
    → m.1 ≡ retry p
    → (chain m f).1 ≡ (f p).1
unfolding chain
chain-retry (es, answered r) f p e = absurd (ground (arith, e))
chain-retry (es, retry q) f p e = ap (λ x. (f x).1) (retry-injective e)
  where
    retry-injective : {a b : Progress} → retry a ≡ retry b → a ≡ b
    retry-injective h = cc

chain-answered :
    (m : List Event × Verdict) (f : Progress → List Event × Verdict) (r : Reply)
    → m.1 ≡ answered r
    → (chain m f).1 ≡ answered r
unfolding chain
chain-answered (es, answered r) f r' e = e
chain-answered (es, retry q) f r' e = absurd (ground (arith, e))

module _ (world : ℕ → Outcome) where
  -- Every attempt numbered from a + 1 to b was followed by the next key.
  abbrev pub AllRetried : ℕ → ℕ → Type 0
  AllRetried a b = (m : ℕ) → a < m → m ≤ b → retried (world m) ≡ true

  -- Attempt n ended the loop behind attempt a, within k attempts.
  pub record Answers (a k n : ℕ) : Type 0 where
    pub after : a < n
    pub within : n ≤ a + k
    pub final : retried (world n) ≡ false
    pub before : (m : ℕ) → a < m → m < n → retried (world m) ≡ true

  pub record Exhausted (a k status : ℕ) (p : Progress) : Type 0 where
    pub all : AllRetried a (a + k)
    pub count : p.attempt_num ≡ a + k
    pub last : p.last_http_status ≡ last_status world status a k

  -- The two ways in which the loop can end.
  abbrev Ends : Progress → ℕ → Verdict → Type 0
  Ends p k v =
      ((n : ℕ) × Answers p.attempt_num k n × (v ≡ answered (answer_of (world n))))
      ⊎ ((p' : Progress) × Exhausted p.attempt_num k p.last_http_status p' × (v ≡ retry p'))

  -- One retried attempt in front.
  Ends-step :
      (p p' : Progress) (k : ℕ) (v : Verdict)
      → retried (world (p.attempt_num + 1)) ≡ true
      → p'.attempt_num ≡ p.attempt_num + 1
      → p'.last_http_status ≡ or_else (status_of (world (p.attempt_num + 1))) p.last_http_status
      → Ends p' k v
      → Ends p (suc k) v
  Ends-step p p' k v go num status (inl (n, a, e)) = inl (
    n,
    record {
      after = omega (arith, a.after);
      within = omega (arith, a.within);
      final = a.final;
      before = λ m lo hi. one_more m lo (λ l. a.before m l hi);
    },
    e,
  )
    where
      one_more :
          (m : ℕ)
          → p.attempt_num < m
          → (p'.attempt_num < m → retried (world m) ≡ true)
          → retried (world m) ≡ true
      one_more m lo later = elim (dec_lt p'.attempt_num m) [
        | yes l ↦ later l
        | no l ↦ let here : m ≡ p.attempt_num + 1 = omega arith in rw here go
      ]
  Ends-step p p' k v go num status (inr (q, x, e)) = inr (
    q,
    record {
      all = λ m lo hi. one_more m lo (λ l. x.all m l (omega arith));
      count = omega (arith, x.count);
      last = x.last ∙ folded;
    },
    e,
  )
    where
      one_more :
          (m : ℕ)
          → p.attempt_num < m
          → (p'.attempt_num < m → retried (world m) ≡ true)
          → retried (world m) ≡ true
      one_more m lo later = elim (dec_lt p'.attempt_num m) [
        | yes l ↦ later l
        | no l ↦ let here : m ≡ p.attempt_num + 1 = omega arith in rw here go
      ]

      folded :
          last_status world p'.last_http_status p'.attempt_num k
          ≡ last_status world p.last_http_status p.attempt_num (suc k)
      folded = unfold last_status in cc (num, status)

  try_plan-Ends : (p : Progress) (cs : Plan) → Ends p (length cs) (try_plan world p cs).1
  unfolding try_plan attempt
  try_plan-Ends p [] = inr (
    p,
    record {
      all = λ m a b. absurd (omega arith);
      count = omega arith;
      last = unfold last_status in refl;
    },
    refl,
  )
  try_plan-Ends p ((provider_id, key_id) ∷ cs) =
      elim (Bool-cases (retried (world (p.attempt_num + 1)))) [
        | inr stop ↦ inl (
          p.attempt_num + 1,
          record {
            after = omega arith;
            within = omega arith;
            final = stop;
            before = λ m a b. absurd (omega arith);
          },
          chain-answered _ _ _
              (after_call-answered p (p.attempt_num + 1) (world (p.attempt_num + 1)) stop),
        )
        | inl go ↦
            let (p', verdict, num, status) =
              after_call-retried p (p.attempt_num + 1) (world (p.attempt_num + 1)) go in
            Ends-step p p' (length cs) _ go num status (
              rw
                (chain-retry (attempt world p provider_id key_id) (λ q. try_plan world q cs) p'
                  verdict)
                (try_plan-Ends p' cs))
      ]

module _ (world : ℕ → Outcome) (ts : List Target) where
  reply-conclude :
      (v : Verdict)
      → (try_plan world begin (plan ts)).1 ≡ v
      → (route_request world ts).1 ≡ (conclude (length ts) v).1
  unfolding route_request
  reply-conclude v e =
      ap (λ m. (conclude (length ts) m.1).1) (try_targets-plan world begin ts)
      ∙ ap (λ w. (conclude (length ts) w).1) e

  reply_answered : (r : Reply) → (conclude (length ts) (answered r)).1 ≡ r
  unfolding conclude
  reply_answered r = refl

  reply_exhausted :
      (p : Progress) (status : ℕ)
      → p.last_http_status ≡ status
      → (conclude (length ts) (retry p)).1
        ≡ failed
            (if ltb 1 (length ts) && status == 502 then 503 else status)
            (status_message p.last_proxy_err)
  unfolding conclude
  reply_exhausted p status e = rw e

-- The reply of a request: either some attempt within the plan is not retried while every earlier one
-- is, and the reply is that attempt's outcome; or every attempt of the plan is retried, and the reply
-- is an error with the last status that an upstream returned, or 502 where none returned one, with
-- 503 in place of 502 when there is more than one target.
pub route_request_reply :
    (world : ℕ → Outcome) (ts : List Target)
    → ((n : ℕ) × Answers world 0 (length (plan ts)) n
        × ((route_request world ts).1 ≡ answer_of (world n)))
      ⊎ (AllRetried world 0 (length (plan ts))
          × ((message : Message) × ((route_request world ts).1
                ≡ failed
                    (if ltb 1 (length ts) && last_status world 502 0 (length (plan ts)) == 502
                      then 503
                      else last_status world 502 0 (length (plan ts)))
                    message)))
route_request_reply world ts = elim (try_plan-Ends world begin (plan ts)) [
  | inl (n, a, e) ↦ inl (n, a, reply-conclude world ts _ e ∙ reply_answered world ts _)
  | inr (p, x, e) ↦ inr (
    (λ m lo hi. x.all m lo (omega arith)),
    (
      status_message p.last_proxy_err,
      reply-conclude world ts _ e ∙ reply_exhausted world ts p _ x.last,
    ),
  )
]
