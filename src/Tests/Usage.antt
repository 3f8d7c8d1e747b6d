-- ===== src/Tests/Usage.antt =====
-- Runs of the usage collector.
use pogu.Prelude.{ℕ, ◌≡◌, refl, List, [], ◌∷◌, Option, none, some, true, codes, eq_text}
use pogu.Provider.Usage.{
  FieldUsage, UsagePayload, new_usage_collector, observe, usage, usage_from_fields,
}
use pogu.Provider.Usage.Collected.{
  inputs_of, outputs_of, models_of, reported, last_some, first_some, observe_all, usage-observe_all,
}

abbrev no_fields : FieldUsage
no_fields = record {
  prompt_tokens = none;
  completion_tokens = none;
  total_tokens = none;
  input_tokens = none;
  output_tokens = none;
}

abbrev empty_payload : UsagePayload
empty_payload = record { model = none; usage = none; message = none; delta = none }

-- message_start, a line that is no JSON, and two message_delta.
abbrev claude : List (ℕ × Option UsagePayload)
claude =
    (
      1,
      some (record empty_payload {
        message = some (record {
          model = some (codes "claude");
          usage = some (record { input_tokens = some 12; output_tokens = some 1 });
        });
      }),
    )
    ∷ (2, none)
    ∷ (
      3,
      some (record empty_payload {
        usage = some (record no_fields { input_tokens = some 12; output_tokens = some 5 });
      }),
    )
    ∷ (
      4,
      some (record empty_payload { usage = some (record no_fields { output_tokens = some 9 }) }),
    )
    ∷ []

-- The total of the third event is kept, though the output has grown since.
stale_total :
    usage (observe_all (new_usage_collector true) claude)
    ≡ record { input = some 12; output = some 9; total = some 17 }
unfolding usage observe_all observe new_usage_collector usage_from_fields eq_text
stale_total = refl

usage-observe_all_example :
    ((usage (observe_all (new_usage_collector true) claude)).input
      ≡ last_some none (reported (inputs_of true) claude))
    × ((usage (observe_all (new_usage_collector true) claude)).output
        ≡ last_some none (reported (outputs_of true) claude))
    × ((observe_all (new_usage_collector true) claude).model
        ≡ first_some none (reported models_of claude))
usage-observe_all_example = usage-observe_all true claude
