-- ===== src/Telemetry/Monitoring.antt =====
-- internal/telemetry/monitoring.go: the scope of a query and the records that it finds.
-- `time_lt` and `id_lt` compare the texts of two times and two ids, as the
-- database does; `key_name` is the name of the client key with an id.
pub mod Ranges
pub mod Figures
pub mod Query
pub mod Series
pub mod Balance
use pogu.Prelude.{
  ℕ, suc, ◌+◌, ◌-◌, ◌*◌, ◌%◌, ◌^◌, max, List, [], ◌∷◌, ◌++◌, Option, none, some, Bool, true, false,
  ◌&&◌, ◌||◌, not, ◌==◌, ltb, any, find, where_, map, take, drop, length, if◌then◌else◌, Text,
  codes, eq_text, eq_nocase,
}
use pogu.Gateway.Errors.{ErrorCategory, none_, canceled_}
use pogu.Telemetry.{
  RequestStatus, in_progress, success, error, RequestRow, AttemptRow, AttemptView, MonitoringRecord,
}
use pogu.Telemetry.Recorder.{Log, has_id, of_request, is_in_progress}
use pogu.Telemetry.Monitoring.Ranges.{Range, Calendar, Window, window}
use pogu.Telemetry.Recorder.Listing.{sorted_by, newer, list_attempts, list_prompt_rules}

-- An empty text is a condition left out.
pub data ScopeOutcome : Type 0 where
  any_outcome succeeded failed cancelled : ScopeOutcome

pub record Scope : Type 0 where
  pub key_id : Option ℕ
  pub provider : Text
  pub model : Text
  pub protocol : Text
  pub group : Text
  pub stream : Option Bool
  pub outcome : ScopeOutcome

-- A column that may be NULL against a text that is not empty.
abbrev pub column_is : Option Text → Text → Bool
column_is none x = false
column_is (some y) x = eq_text y x

abbrev pub is_canceled_category : Option ErrorCategory → Bool
is_canceled_category (some canceled_) = true
is_canceled_category _ = false

abbrev pub same_bool : Bool → Bool → Bool
same_bool true b = b
same_bool false b = not b

abbrev pub given : Text → Bool → Bool
given [] test = true
given (c ∷ s) test = test

unfoldable pub in_outcome : ScopeOutcome → RequestRow → Bool
in_outcome any_outcome r = true
in_outcome succeeded r = elim r.status [ success ↦ true | _ ↦ false ]
in_outcome failed r = elim r.status [
  | error ↦ not (is_canceled_category r.error_category)
  | _ ↦ false
]
in_outcome cancelled r = elim r.status [ error ↦ is_canceled_category r.error_category | _ ↦ false ]

-- scopeClauses, of a request and its last attempt
unfoldable pub in_scope : Scope → Log → RequestRow × Option AttemptRow → Bool
unfolding in_outcome eq_nocase
in_scope sc l (r, last) =
    elim sc.key_id [
      | none ↦ true
      | some id ↦ elim r.client_key_id [ none ↦ false | some key ↦ key == id ]
    ]
    && given sc.provider (elim last [ none ↦ false | some a ↦ eq_text a.provider_name sc.provider ])
    && given sc.model (
        eq_text r.public_model sc.model
        || column_is r.resolved_model sc.model
        || column_is r.served_model sc.model
        || any (λ (a : AttemptRow). of_request r.id a && eq_text a.upstream_model sc.model)
            l.attempts)
    && given sc.protocol (eq_text r.protocol sc.protocol)
    && given sc.group (elim r.group_name [ none ↦ false | some name ↦ eq_nocase name sc.group ])
    && elim sc.stream [ none ↦ true | some b ↦ same_bool r.streaming b ]
    && in_outcome sc.outcome r

unfoldable pub max_attempt_number : List AttemptRow → ℕ
max_attempt_number [] = 0
max_attempt_number (a ∷ attempts) = max a.number (max_attempt_number attempts)

abbrev or_null {ℓ} : {A : Type ℓ} → List A → List (Option A)
or_null [] = none ∷ []
or_null (x ∷ xs) = map some (x ∷ xs)

-- monitorFrom: the rows of a request with its last attempt
unfoldable pub with_last : Log → RequestRow → List (RequestRow × Option AttemptRow)
unfolding max_attempt_number
with_last l r =
    let attempts = where_ (of_request r.id) l.attempts in
    map (λ a. (r, a)) (or_null (where_ (λ a. a.number == max_attempt_number attempts) attempts))

unfoldable pub monitor_from : Log → List RequestRow → List (RequestRow × Option AttemptRow)
unfolding with_last
monitor_from l [] = []
monitor_from l (r ∷ rs) = with_last l r ++ monitor_from l rs

abbrev pub category_of : Option ErrorCategory → ErrorCategory
category_of none = none_
category_of (some c) = c

abbrev pub is_canceled_error : ErrorCategory → Bool
is_canceled_error canceled_ = true
is_canceled_error _ = false

unfoldable pub attempt_view : AttemptRow → AttemptView
attempt_view a = record {
  number = a.number;
  provider_name = a.provider_name;
  provider_prefix = a.provider_prefix;
  provider_type = a.provider_type;
  upstream_model = a.upstream_model;
  credential_id = a.credential_id;
  http_status = a.http_status;
  success = a.success;
  error_category = category_of a.error_category;
  duration_ms = a.duration_ms;
  usage = a.usage;
}

-- (page - 1) * page_size as an int64; SQLite takes a negative offset for 0.
abbrev offset_of : ℕ → ℕ → ℕ
offset_of page page_size =
    let offset = (page - 1) * page_size % 2 ^ 64 in if ltb offset (2 ^ 63) then offset else 0

pub record RequestPage : Type 0 where
  pub items : List MonitoringRecord
  pub total : ℕ
  pub page : ℕ
  pub page_size : ℕ

module _ (key_name : ℕ → Option Text) where
  -- The name in the row is the snapshot, ck.name the current one.
  abbrev shown_key_name : RequestRow → Option Text
  shown_key_name r = elim r.client_key_name [
    | some name ↦ some name
    | none ↦ elim r.client_key_id [ none ↦ none | some id ↦ key_name id ]
  ]

  -- scanMonitoringRow, where collectRows sets the attempts and the prompt rules by the id
  unfoldable pub scan_monitoring_row : Log → RequestRow × Option AttemptRow → MonitoringRecord
  unfolding list_attempts list_prompt_rules attempt_view
  scan_monitoring_row l (r, last) = record {
    request_id = r.id;
    protocol = r.protocol;
    ts = r.started_at;
    key_id = r.client_key_id;
    key_name = shown_key_name r;
    model = r.public_model;
    resolved_model = r.resolved_model;
    served_model = r.served_model;
    group_id = r.group_id;
    group_name = r.group_name;
    provider = elim last [ none ↦ [] | some a ↦ a.provider_name ];
    status = r.http_status;
    error = category_of r.error_category;
    cancelled = is_canceled_error (category_of r.error_category);
    stream = r.streaming;
    usage = r.usage;
    latency_ms = r.duration_ms;
    ttft_ms = r.ttft_ms;
    upstream_ms = r.upstream_ms;
    attempts = map attempt_view (list_attempts l r.id);
    prompt_rules = list_prompt_rules l r.id;
  }

  -- The first row of each id.
  unfoldable pub collect_rows :
      Log → List Text → List (RequestRow × Option AttemptRow) → List MonitoringRecord
  unfolding scan_monitoring_row
  collect_rows l ids [] = []
  collect_rows l ids ((r, last) ∷ rows) =
      let seen = collect_rows l ids rows in
      let unseen = collect_rows l (r.id ∷ ids) rows in
      if any (eq_text r.id) ids then seen else scan_monitoring_row l (r, last) ∷ unseen

  module _ (time_lt : ℕ → ℕ → Bool) (id_lt : Text → Text → Bool) where
    -- WHERE started_at >= start AND started_at < end AND status != 'in_progress', and the scope
    unfoldable pub in_window : ℕ → ℕ → Scope → Log → List (RequestRow × Option AttemptRow)
    unfolding in_scope monitor_from
    in_window start end_ sc l =
        where_
          (λ (r, last).
            not (time_lt r.started_at start)
            && time_lt r.started_at end_
            && not (is_in_progress r.status)
            && in_scope sc l (r, last))
          (monitor_from l l.requests)

    -- windowQuery with ORDER BY started_at, id, and collectRows
    unfoldable pub window_records : ℕ → ℕ → Scope → Log → List MonitoringRecord
    unfolding collect_rows in_window sorted_by
    window_records start end_ sc l =
        collect_rows l []
          (sorted_by (λ x y. not (newer time_lt id_lt x.0 y.0)) (in_window start end_ sc l))

    unfoldable pub requests : Calendar → Range → ℕ → Scope → ℕ → ℕ → Log → RequestPage
    unfolding window in_window collect_rows sorted_by
    requests c rng now sc page page_size l =
        let w = window c rng now in
        let rows = in_window w.start w.end_ sc l in
        record {
          items = collect_rows l [] (
              take page_size (
                drop (offset_of page page_size)
                  (sorted_by (λ x y. newer time_lt id_lt x.0 y.0) rows)));
          total = length rows;
          page = page;
          page_size = page_size;
        }

    -- none is sql.ErrNoRows.
    unfoldable pub get_record : Log → Text → Option MonitoringRecord
    unfolding collect_rows monitor_from
    get_record l id =
        find (λ _. true) (collect_rows l [] (monitor_from l (where_ (has_id id) l.requests)))

    unfoldable pub recent_records : ℕ → Log → List MonitoringRecord
    unfolding collect_rows monitor_from sorted_by
    recent_records n l = collect_rows l [] (
        take n (
          sorted_by (λ x y. newer time_lt id_lt x.0 y.0)
            (monitor_from l (where_ (λ r. not (is_in_progress r.status)) l.requests))))
