-- ===== src/Gateway/Errors.antt =====
-- Upstream errors and how they are classified (internal/provider/client.go,
-- internal/httpapi/gateway.go and gateway_telemetry.go).
use pogu.Prelude.{
  ℕ, ◌≤◌, ◌≡◌, ◌≢◌, [], Option, none, some, Bool, true, false, ◌&&◌, ◌||◌, ◌==◌, leb, if◌then◌else◌,
  arith, Text, eq_text,
}

-- What errors.Is looks for at the end of an error's chain.
pub data Cause : Type 0 where
  canceled deadline_exceeded other : Cause

-- `upstream` is *UpstreamError: the status, 0 where no response came, the message that its body
-- holds ("" where the body holds none), and the wrapped error. `plain` is any other error.
pub data ProxyError : Type 0 where
  upstream : ℕ → Text → Option Cause → ProxyError
  plain : Cause → ProxyError

pub data ErrorCategory : Type 0 where
  none_ auth rate_limit upstream_ server timeout canceled_ connection internal : ErrorCategory

pub data Status : Type 0 where
  success error : Status

abbrev pub is_canceled : Cause → Bool
is_canceled canceled = true
is_canceled _ = false

abbrev pub is_deadline : Cause → Bool
is_deadline deadline_exceeded = true
is_deadline _ = false

-- errors.Is(err, context.Canceled), through the wrapped error.
unfoldable pub wraps : (Cause → Bool) → ProxyError → Bool
wraps test (plain c) = test c
wraps test (upstream status message none) = false
wraps test (upstream status message (some c)) = test c

-- errors.Is(proxyErr, r.Context().Err()); a live context has no error, which no error is.
unfoldable pub is_context_error : ProxyError → Option Cause → Bool
unfolding wraps
is_context_error e none = false
is_context_error e (some canceled) = wraps is_canceled e
is_context_error e (some deadline_exceeded) = wraps is_deadline e
is_context_error e (some other) = false

unfoldable pub is_failover_status : ℕ → Bool
is_failover_status status = status == 401 || status == 403 || status == 429 || status == 402

-- The switch on the status in classifyErrorCategory
unfoldable pub status_category : ℕ → ErrorCategory
status_category status =
    if status == 401 || status == 403
    then auth
    else if status == 429
    then rate_limit
    else if leb 500 status && leb status 599
    then server
    else if leb 400 status && leb status 499
    then upstream_
    else connection

-- classifyErrorCategory
unfoldable pub classify_error_category : Option ProxyError → ErrorCategory
unfolding wraps status_category
classify_error_category none = none_
classify_error_category (some (plain c)) =
    if wraps is_canceled (plain c) || wraps is_deadline (plain c) then canceled_ else connection
classify_error_category (some (upstream status message cause)) =
    if wraps is_canceled (upstream status message cause)
      || wraps is_deadline (upstream status message cause)
    then canceled_
    else status_category status

-- The switch on the status in classify
unfoldable pub classify_status : ℕ → ErrorCategory × Status × Bool
classify_status status =
    if status == 401 || status == 403
    then (auth, error, false)
    else if status == 429
    then (rate_limit, error, false)
    else if leb 500 status && leb status 599
    then (server, error, false)
    else if leb 400 status && leb status 499
    then (upstream_, error, false)
    else (connection, error, false)

-- (g *gatewayTelemetry) classify
unfoldable pub classify : Option ProxyError → ErrorCategory × Status × Bool
unfolding wraps classify_status
classify none = (none_, success, true)
classify (some (plain c)) =
    if wraps is_canceled (plain c) || wraps is_deadline (plain c)
    then (canceled_, error, false)
    else if wraps is_deadline (plain c)
    then (timeout, error, false)
    else (connection, error, false)
classify (some (upstream status message cause)) =
    if wraps is_canceled (upstream status message cause)
      || wraps is_deadline (upstream status message cause)
    then (canceled_, error, false)
    else classify_status status

-- clientStatusForUpstream
unfoldable pub client_status_for_upstream : ProxyError → ℕ → ℕ
client_status_for_upstream (upstream status message cause) fallback =
    if leb 400 status && leb status 599 then status else if fallback == 500 then 502 else fallback
client_status_for_upstream (plain c) fallback = if fallback == 500 then 502 else fallback

-- provider.StatusMessage; `upstream_status n` stands for the text "upstream returned HTTP n".
pub data Message : Type 0 where
  upstream_message : Text → Message
  upstream_status : ℕ → Message
  request_canceled upstream_unavailable : Message

unfoldable pub status_message : Option ProxyError → Message
unfolding wraps
status_message none = upstream_unavailable
status_message (some (upstream status message cause)) =
    if eq_text message [] then upstream_status status else upstream_message message
status_message (some (plain c)) =
    if wraps is_canceled (plain c) || wraps is_deadline (plain c)
    then request_canceled
    else upstream_unavailable

-- The two classifications agree on every error, and a call without an error is the only success.
pub classify_agrees :
    (e : Option ProxyError)
    → ((classify e).0 ≡ classify_error_category e)
      × ((classify e).2 ≡ true → e ≡ none)
      × (((classify e).1 ≡ success → (classify e).2 ≡ true)
          × ((classify e).2 ≡ true → (classify e).1 ≡ success))
unfolding classify classify_error_category
classify_agrees none = ground arith
classify_agrees (some (plain c)) = ground arith
classify_agrees (some (upstream status message cause)) = ground arith

-- An expired deadline is recorded as a cancelation: no error is ever classified as a timeout.
pub classify-ne-timeout :
    (e : Option ProxyError) → ((classify e).0 ≢ timeout) × (classify_error_category e ≢ timeout)
unfolding classify classify_error_category
classify-ne-timeout none = ground arith
classify-ne-timeout (some (plain c)) = ground arith
classify-ne-timeout (some (upstream status message cause)) = ground arith

-- The status that a client gets for a failed call lies from 400 to 599 whenever the fallback does.
client_status-bounds :
    (e : ProxyError) (fallback : ℕ)
    → 400 ≤ fallback
    → fallback ≤ 599
    → (400 ≤ client_status_for_upstream e fallback) × (client_status_for_upstream e fallback ≤ 599)
unfolding client_status_for_upstream
client_status-bounds (plain c) fallback lo hi = ground arith
client_status-bounds (upstream status message cause) fallback lo hi = ground arith
