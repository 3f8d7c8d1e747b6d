-- ===== src/Telemetry/Monitoring/Figures.antt =====
-- internal/telemetry/monitoring.go: the totals of a window and its time series. An average and a rate are the two numbers of
-- their quotient. A sum is an int64, taken modulo 2 ^ 64; a count is a number of rows.
use pogu.Prelude.{
  ℕ, zero, suc, ◌+◌, ◌-◌, ◌%◌, ◌^◌, List, [], ◌∷◌, Option, none, some, Bool, true, false, ◌||◌,
  ◌==◌, ltb, leb, find, if◌then◌else◌, Text,
}
use pogu.Gateway.Errors.{ErrorCategory, none_}
use pogu.Telemetry.{MonitoringRecord}
use pogu.Telemetry.Recorder.{Log}
use pogu.Telemetry.Monitoring.{Scope, window_records}
use pogu.Telemetry.Monitoring.Ranges.{Range, Calendar, window, bucketize, next_bucket, interval}

pub record TokenTotals : Type 0 where
  pub sum : ℕ
  pub known : Bool

abbrev pub no_tokens : TokenTotals
no_tokens = record { sum = 0; known = false }

abbrev pub add_tokens : Option ℕ → TokenTotals → TokenTotals
add_tokens none t = t
add_tokens (some v) t = record { sum = (t.sum + v) % 2 ^ 64; known = true }

abbrev pub tokens_value : TokenTotals → Option ℕ
tokens_value t = if t.known then some t.sum else none

-- What Totals and Bucket count.
pub record Counts : Type 0 where
  pub requests : ℕ
  pub succeeded : ℕ
  pub failed : ℕ
  pub cancelled : ℕ
  pub inputs : TokenTotals
  pub outputs : TokenTotals
  pub latency_sum : ℕ
  pub latency_count : ℕ

abbrev pub no_counts : Counts
no_counts = record {
  requests = 0;
  succeeded = 0;
  failed = 0;
  cancelled = 0;
  inputs = no_tokens;
  outputs = no_tokens;
  latency_sum = 0;
  latency_count = 0;
}

abbrev pub has_error : ErrorCategory → Bool
has_error none_ = false
has_error _ = true

abbrev pub is_failed : MonitoringRecord → Bool
is_failed r = elim r.status [ none ↦ false | some status ↦ leb 400 status ] || has_error r.error

abbrev pub count_outcome : MonitoringRecord → Counts → Counts
count_outcome r c =
    if r.cancelled
    then record c { cancelled = c.cancelled + 1 }
    else if is_failed r
    then record c { failed = c.failed + 1 }
    else record c { succeeded = c.succeeded + 1 }

abbrev pub count_latency : Option ℕ → Counts → Counts
count_latency none c = c
count_latency (some ms) c = record c {
  latency_sum = (c.latency_sum + ms) % 2 ^ 64;
  latency_count = c.latency_count + 1;
}

-- observe
unfoldable pub observe : MonitoringRecord → Counts → Counts
observe r c =
    let counted = count_outcome r (record c { requests = c.requests + 1 }) in
    count_latency r.latency_ms (record counted {
      inputs = add_tokens r.usage.input counted.inputs;
      outputs = add_tokens r.usage.output counted.outputs;
    })

unfoldable pub observe_all : List MonitoringRecord → Counts → Counts
unfolding observe
observe_all [] c = c
observe_all (r ∷ rs) c = observe_all rs (observe r c)

pub record Finished : Type 0 where
  pub counts : Counts
  pub input_tokens : Option ℕ
  pub output_tokens : Option ℕ
  pub avg_latency_ms : Option (ℕ × ℕ)

abbrev pub finish : Counts → Finished
finish c = record {
  counts = c;
  input_tokens = tokens_value c.inputs;
  output_tokens = tokens_value c.outputs;
  avg_latency_ms = if ltb 0 c.latency_count then some (c.latency_sum, c.latency_count) else none;
}

pub record Totals : Type 0 where
  pub figures : Finished
  pub success_rate : Option (ℕ × ℕ)

-- finish of Totals: the requests that were not cancelled are eligible.
abbrev pub finish_totals : Counts → Totals
finish_totals c = record {
  figures = finish c;
  success_rate =
      if ltb c.cancelled c.requests then some (c.succeeded, c.requests - c.cancelled) else none;
}

pub record Bucket : Type 0 where
  pub t : ℕ
  pub counts : Counts

pub record FinishedBucket : Type 0 where
  pub t : ℕ
  pub figures : Finished

-- spans[bt], made where it is missing, observes a record.
unfoldable pub observe_at : ℕ → MonitoringRecord → List Bucket → List Bucket
unfolding observe
observe_at bt r [] = record { t = bt; counts = observe r no_counts } ∷ []
observe_at bt r (b ∷ spans) =
    let others = observe_at bt r spans in
    if b.t == bt then record b { counts = observe r b.counts } ∷ spans else b ∷ others

pub record SummaryResult : Type 0 where
  pub range : Range
  pub start : ℕ
  pub end_ : ℕ
  pub interval : Text
  pub current : Totals
  pub previous : Totals

module _ (c : Calendar) (rng : Range) where
  unfoldable pub spans_of : List MonitoringRecord → List Bucket → List Bucket
  unfolding bucketize observe_at
  spans_of [] spans = spans
  spans_of (r ∷ rs) spans = spans_of rs (observe_at (bucketize c rng r.ts) r spans)

  abbrev pub bucket_at : List Bucket → ℕ → FinishedBucket
  bucket_at spans bt = elim (find (λ (b : Bucket). b.t == bt) spans) [
    | some b ↦ record { t = b.t; figures = finish b.counts }
    | none ↦ record { t = bt; figures = finish no_counts }
  ]

  -- The loop over the buckets up to `end_`; none is out of fuel.
  unfoldable pub buckets : ℕ → List Bucket → ℕ → ℕ → Option (List FinishedBucket)
  unfolding next_bucket
  buckets zero spans end_ bt = none
  buckets (suc fuel) spans end_ bt =
      let later = buckets fuel spans end_ (next_bucket c bt rng) in
      if ltb end_ bt
      then some []
      else elim later [ none ↦ none | some out ↦ some (bucket_at spans bt ∷ out) ]

  module _ (key_name : ℕ → Option Text) (time_lt : ℕ → ℕ → Bool) (id_lt : Text → Text → Bool) where
    unfoldable pub observe_window : ℕ → ℕ → Scope → Log → Totals
    unfolding window_records observe_all
    observe_window start end_ sc l =
        finish_totals
          (observe_all (window_records key_name time_lt id_lt start end_ sc l) no_counts)

    unfoldable pub summary : ℕ → Scope → Log → SummaryResult
    unfolding observe_window window
    summary now sc l =
        let w = window c rng now in
        record {
          range = rng;
          start = w.start;
          end_ = w.end_;
          interval = interval rng;
          current = observe_window w.start w.end_ sc l;
          previous = observe_window w.prev_start w.start sc l;
        }

    -- TimeSeries, with fuel for each nanosecond of the window
    unfoldable pub time_series : ℕ → Scope → Log → Option (List FinishedBucket)
    unfolding buckets spans_of window_records window bucketize
    time_series now sc l =
        let w = window c rng now in
        let recs = window_records key_name time_lt id_lt w.start w.end_ sc l in
        let first = bucketize c rng w.start in
        buckets (suc (suc (w.end_ - first))) (spans_of recs []) w.end_ first
