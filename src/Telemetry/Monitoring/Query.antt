-- ===== src/Telemetry/Monitoring/Query.antt =====
-- internal/httpapi/monitoring.go: the query of a request for monitoring, and the handlers over the recorder. `q` is the
-- value of a query parameter, empty where it is missing. `parse_int` and `parse_bool` are strconv's: none is an error, and a
-- number below zero counts as one, which the code refuses or replaces like an error.
use pogu.Prelude.{
  ℕ, List, Option, none, some, Bool, ◌||◌, ltb, if◌then◌else◌, String, Text, codes, eq_text,
}
use pogu.Telemetry.Recorder.{Log}
use pogu.Telemetry.Monitoring.{
  Scope, any_outcome, succeeded, failed, cancelled, ScopeOutcome, RequestPage, requests,
}
use pogu.Telemetry.Monitoring.Ranges.{Range, daily, monthly, yearly, Calendar}
use pogu.Telemetry.Monitoring.Figures.{SummaryResult, FinishedBucket, summary, time_series}

-- A bad request with its message.
pub data Parsed {ℓ} (A : Type ℓ) : Type ℓ where
  bad : Text → Parsed A
  parsed : A → Parsed A

abbrev then_parsed {ℓ κ} : {A : Type ℓ} {B : Type κ} → Parsed A → (A → Parsed B) → Parsed B
then_parsed (bad message) f = bad message
then_parsed (parsed a) f = f a

abbrev is_text : String → Text → Bool
is_text name v = eq_text v (codes name)

unfoldable pub parse_monitoring_range : (Text → Text) → Parsed Range
parse_monitoring_range q =
    let rk = q (codes "range") in
    if is_text "" rk || is_text "daily" rk
    then parsed daily
    else if is_text "monthly" rk
    then parsed monthly
    else if is_text "yearly" rk
    then parsed yearly
    else bad (codes "range must be daily, monthly, or yearly")

abbrev positive : Option ℕ → Option ℕ
positive none = none
positive (some n) = if ltb 0 n then some n else none

module _ (parse_int : Text → Option ℕ) (parse_bool : Text → Option Bool) where
  unfoldable pub parse_key_id : Text → Parsed (Option ℕ)
  parse_key_id v = if is_text "" v then parsed none else elim (positive (parse_int v)) [
    | none ↦ bad (codes "key_id must be a positive integer")
    | some id ↦ parsed (some id)
  ]

  unfoldable pub parse_protocol : Text → Parsed Text
  parse_protocol v =
      if is_text "" v || is_text "openai" v || is_text "anthropic" v
      then parsed v
      else bad (codes "protocol must be openai or anthropic")

  unfoldable pub parse_stream : Text → Parsed (Option Bool)
  parse_stream v = if is_text "" v then parsed none else elim (parse_bool v) [
    | none ↦ bad (codes "stream must be true or false")
    | some b ↦ parsed (some b)
  ]

  unfoldable pub parse_outcome : Text → Parsed ScopeOutcome
  parse_outcome v =
      if is_text "" v
      then parsed any_outcome
      else if is_text "success" v
      then parsed succeeded
      else if is_text "failed" v
      then parsed failed
      else if is_text "cancelled" v
      then parsed cancelled
      else bad (codes "status must be success, failed, or cancelled")

  unfoldable pub parse_monitoring_scope : (Text → Text) → Parsed Scope
  unfolding parse_key_id parse_protocol parse_stream parse_outcome
  parse_monitoring_scope q = then_parsed (parse_key_id (q (codes "key_id"))) (λ key_id.
      then_parsed (parse_protocol (q (codes "protocol"))) (λ protocol.
        then_parsed (parse_stream (q (codes "stream"))) (λ stream.
          then_parsed (parse_outcome (q (codes "status"))) (λ outcome. parsed (record {
            key_id = key_id;
            provider = q (codes "provider");
            model = q (codes "model");
            protocol = protocol;
            group = q (codes "group");
            stream = stream;
            outcome = outcome;
          })))))

  -- page and page_size, with what replaces one out of range
  abbrev page_of : Text → ℕ
  page_of v = elim (positive (parse_int v)) [ none ↦ 1 | some n ↦ n ]

  abbrev page_size_of : Text → ℕ
  page_size_of v = elim (positive (parse_int v)) [
    | none ↦ 25
    | some n ↦ if ltb 100 n then 25 else n
  ]

  module _ (c : Calendar) (key_name : ℕ → Option Text) (time_lt : ℕ → ℕ → Bool)
      (id_lt : Text → Text → Bool) where
    unfoldable pub monitoring_summary : (Text → Text) → ℕ → Log → Parsed SummaryResult
    unfolding parse_monitoring_range parse_monitoring_scope summary
    monitoring_summary q now l = then_parsed (parse_monitoring_range q) (λ rk.
        then_parsed (parse_monitoring_scope q)
          (λ sc. parsed (summary c rk key_name time_lt id_lt now sc l)))

    -- none is out of fuel.
    unfoldable pub monitoring_timeseries :
        (Text → Text) → ℕ → Log → Parsed (Option (List FinishedBucket))
    unfolding parse_monitoring_range parse_monitoring_scope time_series
    monitoring_timeseries q now l = then_parsed (parse_monitoring_range q) (λ rk.
        then_parsed (parse_monitoring_scope q)
          (λ sc. parsed (time_series c rk key_name time_lt id_lt now sc l)))

    unfoldable pub monitoring_requests : (Text → Text) → ℕ → Log → Parsed RequestPage
    unfolding parse_monitoring_range parse_monitoring_scope requests
    monitoring_requests q now l = then_parsed (parse_monitoring_range q) (λ rk.
        then_parsed (parse_monitoring_scope q) (λ sc. parsed (
          requests key_name time_lt id_lt c rk now sc (page_of (q (codes "page")))
            (page_size_of (q (codes "page_size"))) l)))
