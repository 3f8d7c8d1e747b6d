-- ===== src/Gateway/Attempts/Plan.antt =====
-- The nested loops as one loop over a plan, and the reply by an independent description.
use mathlib.Core.Path.{fun_ext}
use pogu.Prelude.{
  ℕ, zero, suc, ◌+◌, ◌≡◌, refl, sym, ap, ◌∙◌, List, [], ◌∷◌, ◌++◌, append_assoc, Option, none, some,
  Bool, true, false, ◌&&◌, ◌||◌, not, if◌then◌else◌,
}
use pogu.Store.{KeyRow}
use pogu.Service.Routing.{Target}
use pogu.Gateway.Errors.{
  upstream, wraps, is_canceled, is_context_error, is_failover_status, client_status_for_upstream,
  status_message,
}
use pogu.Gateway.Attempts.{
  Outcome, no_secret, proxied, Event, Reply, passed, failed, Progress, Verdict, retry, answered,
  chain, attempt, try_keys, try_targets,
}

-- The providers and keys in the order in which they are tried.
abbrev pub Plan : Type 0
Plan = List (ℕ × ℕ)

abbrev pub plan_keys : ℕ → List KeyRow → Plan
plan_keys id [] = []
plan_keys id (k ∷ ks) = (id, k.id) ∷ plan_keys id ks

abbrev pub plan : List Target → Plan
plan [] = []
plan (t ∷ ts) = plan_keys t.route.provider.id t.keys ++ plan ts

chain-prepend :
    (es : List Event) (m : List Event × Verdict) (g : Progress → List Event × Verdict)
    → chain (es ++ m.0, m.1) g ≡ (es ++ (chain m g).0, (chain m g).1)
unfolding chain
chain-prepend es (es', answered r) g = refl
chain-prepend es (es', retry p) g = rw append_assoc

chain_assoc :
    (m : List Event × Verdict) (f g : Progress → List Event × Verdict)
    → chain (chain m f) g ≡ chain m (λ p. chain (f p) g)
unfolding chain
chain_assoc (es, answered r) f g = refl
chain_assoc (es, retry p) f g = chain-prepend es (f p) g

module _ (world : ℕ → Outcome) where
  unfoldable pub try_plan : Progress → Plan → List Event × Verdict
  try_plan p [] = ([], retry p)
  try_plan p ((provider_id, key_id) ∷ rest) =
      chain (attempt world p provider_id key_id) (λ p'. try_plan p' rest)

  try_plan-append :
      (p : Progress) (xs ys : Plan)
      → try_plan p (xs ++ ys) ≡ chain (try_plan p xs) (λ p'. try_plan p' ys)
  unfolding try_plan
  try_plan-append p [] ys = unfold chain in refl
  try_plan-append p ((provider_id, key_id) ∷ xs) ys =
      ap (chain (attempt world p provider_id key_id)) (fun_ext (λ p'. try_plan-append p' xs ys))
      ∙ sym (chain_assoc (attempt world p provider_id key_id) _ _)

  try_keys-plan :
      (p : Progress) (t : Target) (ks : List KeyRow)
      → try_keys world p t ks ≡ try_plan p (plan_keys t.route.provider.id ks)
  unfolding try_keys try_plan
  try_keys-plan p t [] = refl
  try_keys-plan p t (k ∷ ks) =
      ap (chain (attempt world p t.route.provider.id k.id)) (fun_ext (λ p'. try_keys-plan p' t ks))

  -- The loop over targets and keys is one loop over the plan.
  pub try_targets-plan :
      (p : Progress) (ts : List Target) → try_targets world p ts ≡ try_plan p (plan ts)
  unfolding try_targets
  try_targets-plan p [] = unfold try_plan in refl
  try_targets-plan p (t ∷ ts) =
      rw (try_keys-plan, fun_ext (λ p'. try_targets-plan p' ts))
        (sym (try_plan-append p (plan_keys t.route.provider.id t.keys) (plan ts)))

-- An attempt after which the next key is tried: there was no secret, or the upstream refused with
-- 401, 402, 403 or 429 before anything reached the client and nobody canceled.
unfoldable pub retried : Outcome → Bool
unfolding is_failover_status wraps is_context_error
retried (no_secret c) = true
retried (proxied none (some (upstream status message cause)) ctx) =
    is_failover_status status
    && not (wraps is_canceled (upstream status message cause))
    && not (is_context_error (upstream status message cause) ctx)
retried _ = false

-- What the client is left with by an attempt that is not retried.
unfoldable pub answer_of : Outcome → Reply
unfolding wraps is_context_error client_status_for_upstream status_message
answer_of (proxied none (some e) ctx) =
    if wraps is_canceled e || is_context_error e ctx
    then passed none
    else failed (client_status_for_upstream e 502) (status_message (some e))
answer_of (proxied committed _ ctx) = passed committed
answer_of (no_secret c) = passed none

-- The status of an upstream error.
unfoldable pub status_of : Outcome → Option ℕ
status_of (proxied committed (some (upstream status message cause)) ctx) = some status
status_of _ = none

abbrev pub or_else : Option ℕ → ℕ → ℕ
or_else none s = s
or_else (some t) s = t

-- The last upstream status among the k attempts behind number n, or `status` where there is none.
unfoldable pub last_status : (ℕ → Outcome) → ℕ → ℕ → ℕ → ℕ
unfolding status_of
last_status world status n zero = status
last_status world status n (suc k) =
    last_status world (or_else (status_of (world (n + 1))) status) (n + 1) k
