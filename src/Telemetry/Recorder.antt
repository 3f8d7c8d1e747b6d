-- ===== src/Telemetry/Recorder.antt =====
-- internal/telemetry/telemetry.go: what the recorder writes, and ReapStale (monitoring.go). A write
-- that a constraint refuses returns none and leaves the tables. Times are nanoseconds; `time_lt` and `id_lt` compare
-- the texts of two times and two ids, as the database does.
pub mod Reaping
pub mod Histories
pub mod Listing
pub mod PromptRules
use pogu.Prelude.{
  ℕ, ◌+◌, ◌-◌, ◌/◌, List, [], ◌∷◌, ◌++◌, Option, none, some, Bool, true, false, ◌&&◌, ◌||◌, not,
  ◌==◌, ltb, leb, any, find, where_, update_where, map, take, if◌then◌else◌, Text, eq_text,
}
use pogu.Gateway.Errors.{ErrorCategory, internal}
use pogu.Provider.Usage.{TokenUsage, no_usage}
use pogu.Telemetry.{
  RequestStatus, in_progress, success, error, RequestRow, AttemptRow, PromptRuleRef, PromptRow,
}

pub record Log : Type 0 where
  pub requests : List RequestRow
  pub attempts : List AttemptRow
  pub prompts : List PromptRow

abbrev pub has_id : Text → RequestRow → Bool
has_id id r = eq_text r.id id

abbrev pub of_request : Text → AttemptRow → Bool
of_request id a = eq_text a.request_id id

abbrev pub is_null {ℓ} : {A : Type ℓ} → Option A → Bool
is_null none = true
is_null (some x) = false

abbrev pub is_in_progress : RequestStatus → Bool
is_in_progress in_progress = true
is_in_progress _ = false

unfoldable pub duration_ms : ℕ → ℕ → ℕ
duration_ms start end_ = if ltb end_ start then 0 else (end_ - start) / 1000000

abbrev pub new_attempt : AttemptRow → AttemptRow
new_attempt a = record a {
  completed_at = none;
  duration_ms = none;
  http_status = none;
  success = false;
  error_category = none;
  usage = no_usage;
}

abbrev pub new_request : RequestRow → RequestRow
new_request r = record r {
  served_model = none;
  status = in_progress;
  http_status = none;
  error_category = none;
  completed_at = none;
  duration_ms = none;
  ttft_ms = none;
  upstream_ms = none;
  usage = no_usage;
}

-- INSERT INTO telemetry_attempts, whose request must be there
unfoldable pub insert_attempt : AttemptRow → Log → Option Log
insert_attempt a l =
    if any (has_id a.request_id) l.requests
    then some (record l { attempts = l.attempts ++ new_attempt a ∷ [] })
    else none

unfoldable pub start_request : RequestRow → AttemptRow → Log → Option Log
unfolding insert_attempt
start_request r a l =
    if any (has_id r.id) l.requests
    then none
    else insert_attempt a (record l { requests = l.requests ++ new_request r ∷ [] })

unfoldable pub start_attempt : AttemptRow → Log → Option Log
unfolding insert_attempt
start_attempt a l = insert_attempt a l

unfoldable pub record_resolution : Text → Option ℕ → Option Text → Text → Log → Log
record_resolution id group_id group_name resolved_model l = record l {
  requests =
      update_where (has_id id)
        (λ r. record r {
          resolved_model = some resolved_model;
          group_id = group_id;
          group_name = group_name;
        })
        l.requests;
}

abbrev pub prompt_row : Text → ℕ → PromptRuleRef → PromptRow
prompt_row id i seg = record {
  request_id = id;
  position = i;
  rule_id = if seg.rule_id == 0 then none else some seg.rule_id;
  rule_name = seg.rule_name;
}

abbrev pub prompt_rows : Text → ℕ → List PromptRuleRef → List PromptRow
prompt_rows id i [] = []
prompt_rows id i (seg ∷ segments) = prompt_row id i seg ∷ prompt_rows id (i + 1) segments

-- A row refers to its request, which must be there where there is a row to insert.
unfoldable pub record_prompt_rules : Text → List PromptRuleRef → Log → Option Log
record_prompt_rules id [] l =
    some
      (record l { prompts = where_ (λ (p : PromptRow). not (eq_text p.request_id id)) l.prompts })
record_prompt_rules id (seg ∷ segments) l =
    if any (has_id id) l.requests
    then some (record l {
      prompts =
          where_ (λ (p : PromptRow). not (eq_text p.request_id id)) l.prompts
          ++ prompt_rows id 0 (seg ∷ segments);
    })
    else none

abbrev pub finished_attempt :
    Option ℕ → Bool → ErrorCategory → TokenUsage → ℕ → ℕ → AttemptRow → AttemptRow
finished_attempt http_status succeeded category usage started_at completed_at a = record a {
  http_status = http_status;
  success = succeeded;
  error_category = some category;
  usage = usage;
  completed_at = some completed_at;
  duration_ms = some (duration_ms started_at completed_at);
}

-- FinishAttemptWithTiming
unfoldable pub finish_attempt :
    Text → ℕ → Option ℕ → Bool → ErrorCategory → TokenUsage → ℕ → ℕ → Log → Log
unfolding duration_ms
finish_attempt id number http_status succeeded category usage started_at completed_at l = record l {
  attempts =
      update_where (λ a. of_request id a && a.number == number)
        (finished_attempt http_status succeeded category usage started_at completed_at) l.attempts;
}

abbrev pub finished_request :
    RequestStatus
    → Option ℕ
    → ErrorCategory
    → TokenUsage
    → Option ℕ
    → Option ℕ
    → Option Text
    → ℕ
    → ℕ
    → RequestRow
    → RequestRow
finished_request status http_status category usage ttft_ms upstream_ms served_model started_at
      completed_at r =
    record r {
      status = status;
      http_status = http_status;
      error_category = some category;
      usage = usage;
      ttft_ms = ttft_ms;
      upstream_ms = upstream_ms;
      served_model = served_model;
      completed_at = some completed_at;
      duration_ms = some (duration_ms started_at completed_at);
    }

-- FinishRequestWithTiming
unfoldable pub finish_request :
    Text
    → RequestStatus
    → Option ℕ
    → ErrorCategory
    → TokenUsage
    → Option ℕ
    → Option ℕ
    → Option Text
    → ℕ
    → ℕ
    → Log
    → Log
unfolding duration_ms
finish_request id status http_status category usage ttft_ms upstream_ms served_model started_at
      completed_at l =
    record l {
      requests =
          update_where (has_id id)
            (finished_request status http_status category usage ttft_ms upstream_ms served_model
              started_at completed_at)
            l.requests;
    }

-- status='error' AND error_category='internal_error' AND completed_at=?
abbrev pub is_reaped : ℕ → RequestRow → Bool
is_reaped ts r = elim r.status [
  | error ↦ elim r.error_category [
    | none ↦ false
    | some c ↦ elim c [
      | internal ↦ elim r.completed_at [ none ↦ false | some at ↦ at == ts ]
      | _ ↦ false
    ]
  ]
  | _ ↦ false
]

abbrev pub reaped : ℕ → RequestRow → RequestRow
reaped ts r = record r {
  status = error;
  error_category = some internal;
  completed_at = some ts;
  duration_ms = none;
}

abbrev pub reaped_attempt : ℕ → AttemptRow → AttemptRow
reaped_attempt ts a = record a {
  success = false;
  error_category = some internal;
  completed_at = some ts;
  duration_ms = none;
}

unfoldable pub reap_requests : ℕ → List RequestRow → List RequestRow
reap_requests ts rows = update_where (λ r. is_in_progress r.status) (reaped ts) rows

unfoldable pub reap_stale : ℕ → Log → Log
unfolding reap_requests
reap_stale ts l =
    let requests = reap_requests ts l.requests in
    record l {
      requests = requests;
      attempts =
          update_where
            (λ a.
              is_null a.completed_at
              && any (λ r. is_reaped ts r && eq_text r.id a.request_id) requests)
            (reaped_attempt ts) l.attempts;
    }
