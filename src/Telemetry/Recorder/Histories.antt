-- ===== src/Telemetry/Recorder/Histories.antt =====
-- What the recorder has of a request whose events the gateway tells it (internal/httpapi/gateway_telemetry.go with
-- internal/telemetry/telemetry.go): the composition of the failover loop and the tables.
pub mod Rows
pub mod Steps
pub mod Closed
use pogu.Prelude.{
  ℕ, suc, zero, ◌+◌, ◌≡◌, ◌≢◌, refl, sym, ap, ◌∙◌, ◌⊎◌, inl, inr, List, [], ◌∷◌, ◌++◌, Option, none,
  some, Bool, true, false, ◌&&◌, not, ◌==◌, any, where_, update_where, All, All-append, All-imp,
  Text, eq_text, eq_text_iff, arith, Bool-cases, Option-cases, none-ne-some, some-eq-some, subst,
  if◌then◌else◌,
}
use pogu.Store.{KeyRow}
use pogu.Service.Routing.{Target}
use pogu.Gateway.Errors.{ErrorCategory, Status}
use pogu.Gateway.Attempts.{
  Outcome, Event, attempt_started, attempt_finished, request_finished, route_request,
}
use pogu.Gateway.Attempts.Plan.{Plan, plan}
use pogu.Gateway.Attempts.Log.{
  Reading, waiting, running, closing, over, read, read_all, route_request_logged,
}
use pogu.Provider.Usage.{TokenUsage}
use pogu.Telemetry.{RequestStatus, in_progress, success, error, RequestRow, AttemptRow}
use pogu.Telemetry.Recorder.{
  Log, has_id, of_request, is_null, is_in_progress, insert_attempt, start_request, start_attempt,
  finish_attempt, finish_request, new_request, finished_attempt, finished_request,
}

abbrev pub status_of : Status → RequestStatus
status_of Status.success = success
status_of Status.error = error

-- What the gateway adds to its events: the row of the request, the names of a provider and a key, the times, and the
-- token usage, by the number of the event; `started` is the start of an attempt, by its number.
pub record Details : Type 0 where
  pub request : RequestRow
  pub attempt_of : ℕ → ℕ → AttemptRow
  pub time : ℕ → ℕ
  pub started : ℕ → ℕ
  pub usage : ℕ → TokenUsage
  pub ttft_ms : Option ℕ
  pub upstream_ms : Option ℕ
  pub served : Option Text

abbrev pub or_unchanged : Log → Option Log → Log
or_unchanged l none = l
or_unchanged l (some l') = l'

module _ (d : Details) where
  abbrev pub attempt_row : ℕ → ℕ → ℕ → AttemptRow
  attempt_row n provider key = record (d.attempt_of provider key) {
    request_id = d.request.id;
    number = n;
    provider_id = some provider;
    credential_id = some key;
    started_at = d.started n;
  }

  -- A write that fails is logged, and the request goes on.
  unfoldable pub record_event : ℕ → Event → Log → Log
  unfolding start_attempt finish_attempt finish_request
  record_event i (attempt_started n provider key) l =
      or_unchanged l (start_attempt (attempt_row n provider key) l)
  record_event i (attempt_finished n status succeeded category) l =
      finish_attempt d.request.id n status succeeded category (d.usage i) (d.started n) (d.time i) l
  record_event i (request_finished status http_status category) l =
      finish_request d.request.id (status_of status) http_status category (d.usage i) d.ttft_ms
        d.upstream_ms d.served d.request.started_at (d.time i) l

  unfoldable pub record_events : ℕ → List Event → Log → Log
  unfolding record_event
  record_events i [] l = l
  record_events i (e ∷ es) l = record_events (i + 1) es (record_event i e l)

  -- newGatewayTelemetry inserts the request with its first attempt.
  unfoldable pub record_request : List Event → Log → Log
  unfolding record_events start_request
  record_request (attempt_started n provider key ∷ es) l =
      record_events 1 es (or_unchanged l (start_request d.request (attempt_row n provider key) l))
  record_request es l = record_events 0 es l
