-- ===== src/Tests/Streams.antt =====
-- The translators of streams, at concrete streams.
use pogu.Prelude.{
  ℕ, ◌≡◌, refl, List, [], ◌∷◌, Option, none, some, Bool, true, false, Text, codes, eq_text,
}
use pogu.Provider.Stream.Chat
use pogu.Provider.Stream.Chat.{read_all, read_phases}
use pogu.Provider.Stream.FromAnthropic
use pogu.Provider.Stream.FromAnthropic.{AnthropicEvent, new_anthropic_to_chat}
use pogu.Provider.Stream.FromAnthropic.WellFormed.{chat_stream_reads}
use pogu.Provider.Stream.FromResponses
use pogu.Provider.Stream.FromResponses.{ResponsesEvent, new_responses_to_chat}
use pogu.Provider.Stream.FromResponses.Phases.{translate_phases}
use pogu.Provider.Stream.ToAnthropic
use pogu.Provider.Stream.ToAnthropic.{ChatChunk, ToolCall, new_chat_to_anthropic}
use pogu.Provider.Stream.ToAnthropic.Events
use pogu.Provider.Stream.ToAnthropic.WellFormed.{anthropic_stream_reads}

abbrev hex : ℕ → Text
hex n = codes "0f"

-- An event that says what its payload says, as its type, and a text.
abbrev said : Text → Option AnthropicEvent
said payload = some (record {
  type = [];
  index = some 1;
  message = none;
  content_block = some (record { type = codes "tool_use"; id = []; name = codes "ls" });
  delta = some (record {
    type = codes "input_json_delta";
    text = [];
    partial_json = payload;
    stop_reason = none;
  });
  usage = none;
  error = none;
})

abbrev call_events : List (Text × Text)
call_events =
    (codes "content_block_start", [])
    ∷ (codes "content_block_delta", codes "{}")
    ∷ (codes "message_stop", [])
    ∷ []

call_is_translated :
    FromAnthropic.translate hex said (new_anthropic_to_chat (codes "m")) call_events
    ≡ Chat.chunk (codes "m") true (Chat.tool_start 0 (codes "call_0f") (codes "ls")) none
      ∷ Chat.chunk (codes "m") false (Chat.tool_arguments 0 (codes "{}")) none
      ∷ Chat.final_chunk (codes "m") (codes "tool_calls") none
      ∷ Chat.done
      ∷ []
unfolding FromAnthropic.translate eq_text
call_is_translated = refl

chat_stream_reads_example :
    (tools : ℕ → Bool) × (read_all
        (FromAnthropic.translate hex said (new_anthropic_to_chat (codes "m")) call_events)
        Chat.start
      ≡ some (record { phase = Chat.closed; tools = tools }))
chat_stream_reads_example = chat_stream_reads hex said (codes "m") call_events

abbrev spoken : Text → Option ResponsesEvent
spoken payload = some (record {
  type = [];
  delta = payload;
  item_id = codes "i";
  item = none;
  response = none;
  error = none;
})

abbrev response_events : List (Text × Text)
response_events =
    (codes "response.function_call_arguments.delta", codes "{}")
    ∷ (codes "response.completed", [])
    ∷ []

-- Arguments of a call that was never added are passed on, for the index 0, with no start.
arguments_without_start :
    FromResponses.translate hex (λ e. []) spoken (new_responses_to_chat (codes "m")) response_events
    ≡ Chat.chunk (codes "m") true (Chat.tool_arguments 0 (codes "{}")) none
      ∷ Chat.final_chunk (codes "m") (codes "stop") none
      ∷ Chat.done
      ∷ []
unfolding FromResponses.translate eq_text
arguments_without_start = refl

translate_phases_example :
    read_phases
      (FromResponses.translate hex
        (λ e. [])
        spoken
        (new_responses_to_chat (codes "m"))
        response_events)
      Chat.fresh
    ≡ some Chat.closed
translate_phases_example = translate_phases hex (λ e. []) spoken (codes "m") response_events

abbrev call : ℕ → Text → ToolCall
call i args = record { index = some i; id = codes "id"; name = codes "ls"; arguments = args }

-- Two calls whose arguments come in turns.
abbrev in_turns : ChatChunk
in_turns = record {
  model = codes "m";
  choice = some (record {
    content = none;
    reasoning_content = none;
    tool_calls = call 0 (codes "a") ∷ call 1 (codes "b") ∷ call 0 (codes "c") ∷ [];
    finish_reason = some (codes "tool_calls");
  });
  completion_tokens = none;
}

-- The last arguments of the first call are written for block 0 behind its content_block_stop.
arguments_behind_stop :
    ToAnthropic.translate hex (λ p. some in_turns) (new_chat_to_anthropic []) ([] ∷ [])
    ≡ Events.message_start (codes "m")
      ∷ Events.content_block_start 0 (Events.tool_block (codes "id") (codes "ls"))
      ∷ Events.content_block_delta 0 (Events.input_json_delta (codes "a"))
      ∷ Events.content_block_stop 0
      ∷ Events.content_block_start 1 (Events.tool_block (codes "id") (codes "ls"))
      ∷ Events.content_block_delta 1 (Events.input_json_delta (codes "b"))
      ∷ Events.content_block_delta 0 (Events.input_json_delta (codes "c"))
      ∷ Events.content_block_stop 1
      ∷ Events.message_delta (codes "tool_use") none
      ∷ Events.message_stop
      ∷ []
unfolding ToAnthropic.translate eq_text
arguments_behind_stop = refl

anthropic_stream_reads_example :
    (r : Events.Reading) × (Events.read_all
        (ToAnthropic.translate hex (λ p. some in_turns) (new_chat_to_anthropic []) ([] ∷ []))
        Events.start
      ≡ some r)
    × (r.phase ≡ Events.ended)
anthropic_stream_reads_example =
    anthropic_stream_reads hex (λ p. some in_turns) [] [] [] in_turns refl
