-- ===== src/Tests/Monitoring.antt =====
-- Telemetry and monitoring, at a request that fails over once, a subscriber and a calendar.
use pogu.Prelude.{
  inr, ℕ, ◌+◌, ◌-◌, ◌*◌, ◌/◌, ◌%◌, ◌≡◌, refl, [], ◌∷◌, List, Option, none, some, true, false, ltb,
  get_elem?, All, Text, codes, eq_text, arith,
}
use pogu.Gateway.Errors.{none_}
use pogu.Gateway.Attempts.{route_request}
use pogu.Provider.Usage.{no_usage}
use pogu.Telemetry.{in_progress, success, RequestRow, AttemptRow}
use pogu.Telemetry.Hub.{
  Started, started, routed, Routed, subscribe, mark, receive, publish, active_at,
}
use pogu.Telemetry.Hub.Views.{
  System, marks, delivers, subscribes, receives, start, Reached, here, next, IsUpToDate,
  Reached-IsUpToDate,
}
use pogu.Telemetry.Recorder.{Log, is_null, is_in_progress, reap_stale}
use pogu.Telemetry.Recorder.{record_prompt_rules}
use pogu.Telemetry.{PromptRuleRef}
use pogu.Telemetry.Recorder.Listing.{list_prompt_rules}
use pogu.Telemetry.Recorder.PromptRules.{record_prompt_rules-list_prompt_rules}
use pogu.Telemetry.Recorder.Reaping.{is_running, reap_stale-Closed}
use pogu.Telemetry.Recorder.Histories.{Details, record_request}
use pogu.Telemetry.Recorder.Histories.Closed.{IsClosed, route_request-IsClosed}
use pogu.Telemetry.Monitoring.{Scope, any_outcome, window_records}
use pogu.Telemetry.Monitoring.Ranges.{daily, Calendar, window, bucketize, one_hour}
use pogu.Telemetry.Monitoring.Figures.{FinishedBucket, time_series}
use pogu.Telemetry.Monitoring.Series.{IsAhead, IsSeries, time_series-IsSeries}
use pogu.Tests.{key_a, key_b}
use pogu.Tests.Gateway.{limited_once, one_target}

abbrev old_request : RequestRow
old_request = record {
  id = codes "old";
  protocol = codes "openai";
  public_model = codes "fast";
  resolved_model = none;
  served_model = none;
  group_id = none;
  group_name = none;
  streaming = false;
  client_key_id = some 1;
  client_key_name = some (codes "Key 1");
  status = success;
  http_status = some 200;
  error_category = some none_;
  started_at = 2 * one_hour;
  completed_at = some (2 * one_hour + 1);
  duration_ms = some 0;
  ttft_ms = none;
  upstream_ms = none;
  usage = no_usage;
}

abbrev stale_request : RequestRow
stale_request = record old_request {
  id = codes "stale";
  status = in_progress;
  completed_at = none;
  error_category = none;
}

abbrev stale_attempt : AttemptRow
stale_attempt = record {
  request_id = codes "stale";
  number = 1;
  provider_id = some 1;
  provider_name = codes "OpenRouter";
  provider_prefix = codes "or";
  provider_type = codes "openai";
  model_id = some 1;
  upstream_model = codes "mimo";
  credential_id = some 1;
  started_at = 3 * one_hour;
  completed_at = none;
  duration_ms = none;
  http_status = none;
  success = false;
  error_category = none;
  usage = no_usage;
}

abbrev log : Log
log = record {
  requests = old_request ∷ stale_request ∷ [];
  attempts = stale_attempt ∷ [];
  prompts = [];
}

reap_stale-Closed_example :
    All (λ r. is_in_progress r.status ≡ false) (reap_stale 9 log).requests
    × All
        (λ a. is_running log.requests a ≡ true → is_null a.completed_at ≡ false)
        (reap_stale 9 log).attempts
    × ((i : ℕ) (r : RequestRow)
        → get_elem? log.requests i ≡ some r
        → is_in_progress r.status ≡ false
        → get_elem? (reap_stale 9 log).requests i ≡ some r)
    × ((i : ℕ) (a : AttemptRow)
        → get_elem? log.attempts i ≡ some a
        → is_null a.completed_at ≡ false
        → get_elem? (reap_stale 9 log).attempts i ≡ some a)
reap_stale-Closed_example = reap_stale-Closed 9 log

abbrev details : Details
details = record {
  request = record old_request { id = codes "new" };
  attempt_of = λ provider key. stale_attempt;
  time = λ i. 4 * one_hour + i;
  started = λ n. 4 * one_hour + n;
  usage = λ i. no_usage;
  ttft_ms = none;
  upstream_ms = none;
  served = none;
}

-- The first key is rate limited, the second one serves the request.
route_request-IsClosed_example :
    IsClosed
      (codes "new")
      log
      (record_request details (route_request limited_once (one_target ∷ [])).0 log)
unfolding eq_text
route_request-IsClosed_example =
    route_request-IsClosed details limited_once one_target [] key_a (key_b ∷ []) log refl refl refl

abbrev begun : Started
begun = record {
  request_id = codes "new";
  ts = 0;
  key_id = some 1;
  key_name = codes "Key 1";
  model = codes "fast";
  protocol = codes "openai";
  stream = false;
  provider = [];
  upstream_model = [];
  resolved_model = [];
  group_name = [];
}

abbrev sent : Routed
sent = record {
  request_id = codes "new";
  provider = codes "OpenRouter";
  upstream_model = codes "mimo";
  resolved_model = [];
  group_name = [];
}

-- A subscriber between the two halves of a start, which receives it; then a route is under way.
abbrev half_started : System
half_started = record {
  hub = record start.hub { active = mark (started begun) start.hub.active };
  under_way = started begun ∷ [];
}

abbrev subscribed : System
subscribed = record half_started { hub = subscribe half_started.hub 7 }

abbrev told_of_it : System
told_of_it = record { hub = receive (publish subscribed.hub (started begun)) 7; under_way = [] }

abbrev routing : System
routing = record {
  hub = record told_of_it.hub { active = mark (routed sent) told_of_it.hub.active };
  under_way = routed sent ∷ [];
}

run : Reached routing
unfolding active_at
run =
    next
      (next
        (next (next (next here (marks start (started begun) tt refl)) (subscribes half_started 7))
          (delivers subscribed.hub [] [] (started begun)))
        (receives (record { hub = publish subscribed.hub (started begun); under_way = [] }) 7))
      (marks told_of_it (routed sent) tt tt)

Reached-IsUpToDate_example : All (IsUpToDate routing.under_way routing.hub.active) routing.hub.subs
Reached-IsUpToDate_example = Reached-IsUpToDate run

-- A calendar whose years have twelve months of thirty days.
abbrev calendar : Calendar
calendar = record {
  date =
      λ t. (t / (8640 * one_hour), (t / (720 * one_hour)) % 12 + 1, (t / (24 * one_hour)) % 30 + 1);
  hour = λ t. (t / one_hour) % 24;
  time_at = λ y m d h. (y * 8640 + (m - 1) * 720 + (d - 1) * 24 + h) * one_hour;
  add_date = λ y m d t. t + (y * 8640 + m * 720 + d * 24) * one_hour;
  sub_date = λ y m d t. t - (y * 8640 + m * 720 + d * 24) * one_hour;
}

abbrev everything : Scope
everything = record {
  key_id = none;
  provider = [];
  model = [];
  protocol = [];
  group = [];
  stream = none;
  outcome = any_outcome;
}

abbrev key_name : ℕ → Option Text
key_name id = none

calendar-IsAhead : IsAhead calendar
calendar-IsAhead t = (omega arith, omega arith)

time_series-IsSeries_example :
    (out : List FinishedBucket) × (time_series calendar daily key_name ltb
        (λ s t. false)
        (5 * one_hour)
        everything
        log
      ≡ some out)
    × IsSeries calendar daily
        (window calendar daily (5 * one_hour)).end_
        (window_records key_name ltb
          (λ s t. false)
          (window calendar daily (5 * one_hour)).start
          (window calendar daily (5 * one_hour)).end_
          everything
          log)
        (bucketize calendar daily (window calendar daily (5 * one_hour)).start)
        out
time_series-IsSeries_example =
    time_series-IsSeries calendar daily key_name ltb (λ s t. false) calendar-IsAhead (5 * one_hour)
      everything log

abbrev refs : List PromptRuleRef
refs =
    record { rule_id = 4; rule_name = codes "Terse" }
    ∷ record { rule_id = 0; rule_name = codes "Caveman" }
    ∷ []

record_prompt_rules-list_prompt_rules_example :
    (l' : Log) × (record_prompt_rules (codes "stale") refs log ≡ some l')
    × (list_prompt_rules l' (codes "stale") ≡ refs)
    × ((other : Text)
        → eq_text (codes "stale") other ≡ false
        → list_prompt_rules l' other ≡ list_prompt_rules log other)
unfolding eq_text
record_prompt_rules-list_prompt_rules_example =
    record_prompt_rules-list_prompt_rules (codes "stale") refs log (inr refl)
