-- ===== src/Gateway/Attempts.antt =====
-- The loop over targets and keys in `gateway` (internal/httpapi/gateway.go) and the telemetry that
-- it records (gateway_telemetry.go). What a call of an upstream does is an outcome that the
-- environment gives for each attempt; a loop variable is a field of `Progress`. The recorder is
-- taken to be there; token usage and durations are left out.
pub mod Plan
pub mod Answer
pub mod Log
use pogu.Prelude.{
  ℕ, suc, ◌+◌, List, [], ◌∷◌, ◌++◌, Option, none, some, Bool, true, false, ◌&&◌, ◌||◌, not, ◌==◌,
  leb, ltb, if◌then◌else◌, length, Text,
}
use pogu.Store.{KeyRow}
use pogu.Service.Routing.{Target}
use pogu.Gateway.Errors.{
  Cause, ProxyError, upstream, plain, ErrorCategory, none_, auth, rate_limit, upstream_, server,
  internal, Status, success, error, wraps, is_canceled, is_context_error, is_failover_status,
  classify_error_category, classify, client_status_for_upstream, Message, status_message,
}

-- `no_secret`: ProviderKeySecret failed. `proxied`: the status that the upstream call committed to
-- the client, if it did, the error that it returned, if any, and the request context's error then.
pub data Outcome : Type 0 where
  no_secret : Cause → Outcome
  proxied : Option ℕ → Option ProxyError → Option Cause → Outcome

-- What telemetry is told, in order: `attempt_started n provider key`,
-- `attempt_finished n status success category`, `request_finished status http_status category`.
pub data Event : Type 0 where
  attempt_started : ℕ → ℕ → ℕ → Event
  attempt_finished : ℕ → Option ℕ → Bool → ErrorCategory → Event
  request_finished : Status → Option ℕ → ErrorCategory → Event

-- How the handler leaves the client: `passed` what the upstream call wrote, if anything, or `failed`
-- with an error that the gateway writes.
pub data Reply : Type 0 where
  passed : Option ℕ → Reply
  failed : ℕ → Message → Reply

pub record Progress : Type 0 where
  pub attempt_num : ℕ
  pub last_proxy_err : Option ProxyError
  pub last_http_status : ℕ

pub data Verdict : Type 0 where
  retry : Progress → Verdict
  answered : Reply → Verdict

-- The status that finishSuccess records.
unfoldable pub success_status : Option ℕ → ℕ
success_status none = 200
success_status (some status) = if leb 200 status && leb status 299 then status else 200

abbrev reports_upstream : ErrorCategory → Bool
reports_upstream auth = true
reports_upstream rate_limit = true
reports_upstream upstream_ = true
reports_upstream server = true
reports_upstream _ = false

-- The status that finishCommittedOrCanceled records; `committed` is what the client has seen.
unfoldable pub committed_status : ProxyError → Option ℕ → Option ℕ
unfolding classify client_status_for_upstream
committed_status e none = some (client_status_for_upstream e 500)
committed_status e (some status) =
    if reports_upstream (classify (some e)).0
    then some (client_status_for_upstream e status)
    else some status

finish_success : ℕ → Option ℕ → List Event
unfolding success_status
finish_success n committed =
    attempt_finished n (some (success_status committed)) true none_
    ∷ request_finished success (some (success_status committed)) none_
    ∷ []

-- finishCommittedOrCanceled, called with an error
finish_committed_or_canceled : ℕ → ProxyError → Option ℕ → List Event
unfolding committed_status classify
finish_committed_or_canceled n e committed =
    attempt_finished n (committed_status e committed) (classify (some e)).2 (classify (some e)).0
    ∷ request_finished (classify (some e)).1 (committed_status e committed) (classify (some e)).0
    ∷ []

abbrev pub is_committed : Option ℕ → Bool
is_committed none = false
is_committed (some status) = true

-- errors.As(proxyErr, &upstreamErr) && isFailoverStatus(upstreamErr.Status)
unfoldable pub failover_status : ProxyError → Option ℕ
unfolding is_failover_status
failover_status (plain c) = none
failover_status (upstream status message cause) =
    if is_failover_status status then some status else none

-- The end of an attempt whose upstream call returned the error `e`.
after_error : Progress → ℕ → ProxyError → Option ℕ → Option Cause → List Event × Verdict
unfolding finish_committed_or_canceled wraps is_context_error failover_status
    classify_error_category client_status_for_upstream status_message
after_error p n e committed ctx =
    if is_committed committed || wraps is_canceled e || is_context_error e ctx
    then (finish_committed_or_canceled n e committed, answered (passed committed))
    else elim (failover_status e) [
      | some status ↦ (
        attempt_finished n (some status) false (classify_error_category (some e)) ∷ [],
        retry (record { attempt_num = n; last_proxy_err = some e; last_http_status = status }),
      )
      | none ↦ (
        attempt_finished n (some (client_status_for_upstream e 502)) false
              (classify_error_category (some e))
            ∷ request_finished error (some (client_status_for_upstream e 502))
                (classify_error_category (some e))
            ∷ [],
        answered (failed (client_status_for_upstream e 502) (status_message (some e))),
      )
    ]

-- One attempt, behind its number.
after_call : Progress → ℕ → Outcome → List Event × Verdict
unfolding after_error finish_success
after_call p n (no_secret c) = (
  attempt_finished n none false internal ∷ [],
  retry (record p { attempt_num = n; last_proxy_err = some (plain c) }),
)
after_call p n (proxied committed none ctx) =
    (finish_success n committed, answered (passed committed))
after_call p n (proxied committed (some e) ctx) = after_error p n e committed ctx

-- A retry goes on with the loop, an answer ends it.
pub chain : List Event × Verdict → (Progress → List Event × Verdict) → List Event × Verdict
chain (events, answered reply) more = (events, answered reply)
chain (events, retry p) more = let (later, verdict) = more p in (events ++ later, verdict)

-- Attempt 1 is recorded as started by newGatewayTelemetry, the others in the loop.
start_event : ℕ → ℕ → ℕ → List Event
start_event n provider_id key_id = if ltb 1 n then attempt_started n provider_id key_id ∷ [] else []

module _ (world : ℕ → Outcome) where
  -- One round of the inner loop.
  pub attempt : Progress → ℕ → ℕ → List Event × Verdict
  unfolding after_call start_event
  attempt p provider_id key_id =
      let n = p.attempt_num + 1 in
      let (events, verdict) = after_call p n (world n) in
      (start_event n provider_id key_id ++ events, verdict)

  try_keys : Progress → Target → List KeyRow → List Event × Verdict
  unfolding attempt chain
  try_keys p t [] = ([], retry p)
  try_keys p t (k ∷ ks) = chain (attempt p t.route.provider.id k.id) (λ p'. try_keys p' t ks)

  pub try_targets : Progress → List Target → List Event × Verdict
  unfolding try_keys
  try_targets p [] = ([], retry p)
  try_targets p (t ∷ ts) = chain (try_keys p t t.keys) (λ p'. try_targets p' ts)

abbrev pub begin : Progress
begin = record { attempt_num = 0; last_proxy_err = none; last_http_status = 502 }

-- The end of the handler: the loop was answered, or every key has been tried.
conclude : ℕ → Verdict → List Event × Reply
unfolding classify_error_category status_message
conclude targets (answered reply) = ([], reply)
conclude targets (retry p) = (
  request_finished error (some p.last_http_status) (classify_error_category p.last_proxy_err) ∷ [],
  failed (if ltb 1 targets && p.last_http_status == 502 then 503 else p.last_http_status)
      (status_message p.last_proxy_err),
)

-- targets[0].Keys[0], which newGatewayTelemetry records; it would panic where there is none.
first_start : List Target → List Event
first_start [] = []
first_start (t ∷ ts) = elim t.keys [
  | [] ↦ []
  | k ∷ ks ↦ attempt_started 1 t.route.provider.id k.id ∷ []
]

-- The handler behind resolveTargets: what telemetry is told, and the reply.
unfoldable pub route_request : (ℕ → Outcome) → List Target → List Event × Reply
unfolding try_targets conclude first_start
route_request world targets =
    let (events, verdict) = try_targets world begin targets in
    let (last, reply) = conclude (length targets) verdict in
    (first_start targets ++ events ++ last, reply)
