-- ===== src/Provider/Stream/FromAnthropic.antt =====
-- AnthropicToChatTranslator (internal/provider/stream_anthropic.go): the events of an Anthropic stream as
-- a stream of chat completions. `unmarshal` is json.Unmarshal into anthropicEvent; `random_hex_id n`
-- is the n-th value that randomHexID draws for a call without an id.
pub mod WellFormed
use pogu.Prelude.{
  ℕ, ◌+◌, ◌-◌, List, [], ◌∷◌, ◌++◌, Option, none, some, Bool, true, false, ◌&&◌, ◌||◌, not, ◌==◌,
  ltb, if◌then◌else◌, Text, codes, eq_text,
}
use pogu.Provider.Stream.Chat.{
  ChatFrame, chunk, final_chunk, done, Content, text, tool_start, tool_arguments, chat_usage,
  set_flag, set_index,
}

pub record EventMessage : Type 0 where
  pub model : Text
  pub usage : Option (Option ℕ)

pub record ContentBlock : Type 0 where
  pub type : Text
  pub id : Text
  pub name : Text

pub record EventDelta : Type 0 where
  pub type : Text
  pub text : Text
  pub partial_json : Text
  pub stop_reason : Option Text

-- anthropicEvent; `index` is none also for a negative index, which the code treats alike. `usage` has
-- the output tokens, `usage` of the message the input tokens, `error` the message.
pub record AnthropicEvent : Type 0 where
  pub type : Text
  pub index : Option ℕ
  pub message : Option EventMessage
  pub content_block : Option ContentBlock
  pub delta : Option EventDelta
  pub usage : Option (Option ℕ)
  pub error : Option Text

pub record AnthropicToChat : Type 0 where
  pub model : Text
  pub role_sent : Bool
  pub tool_index : ℕ
  pub finish_reason : Text
  pub tool_by_block : ℕ → Option ℕ
  pub tool_started : ℕ → Bool
  pub prompt_tokens : Option ℕ
  pub completion_tokens : Option ℕ
  pub finished : Bool
  -- how many ids have been drawn
  pub drawn : ℕ

abbrev pub new_anthropic_to_chat : Text → AnthropicToChat
new_anthropic_to_chat model = record {
  model = model;
  role_sent = false;
  tool_index = 0;
  finish_reason = [];
  tool_by_block = λ i. none;
  tool_started = λ i. false;
  prompt_tokens = none;
  completion_tokens = none;
  finished = false;
  drawn = 0;
}

pub data EventKind : Type 0 where
  message_start content_block_start content_block_delta message_delta message_stop error_ other :
      EventKind

unfoldable pub event_kind : Text → EventKind
event_kind typ =
    if eq_text typ (codes "message_start")
    then message_start
    else if eq_text typ (codes "content_block_start")
    then content_block_start
    else if eq_text typ (codes "content_block_delta")
    then content_block_delta
    else if eq_text typ (codes "message_delta")
    then message_delta
    else if eq_text typ (codes "message_stop")
    then message_stop
    else if eq_text typ (codes "error")
    then error_
    else other

unfoldable pub anthropic_stop_to_chat : Text → Text
anthropic_stop_to_chat stop =
    if eq_text stop (codes "max_tokens")
    then codes "length"
    else if eq_text stop (codes "tool_use")
    then codes "tool_calls"
    else if eq_text stop (codes "refusal")
    then codes "content_filter"
    else codes "stop"

-- A chunk behind `delta`, which adds the role to the first one.
emit : AnthropicToChat → Content → Option Text → AnthropicToChat × List ChatFrame
emit t content finish =
    (record t { role_sent = true }, chunk t.model (not t.role_sent) content finish ∷ [])

-- The reason that terminal writes.
unfoldable pub terminal_reason : AnthropicToChat → Text
terminal_reason t =
    if not (eq_text t.finish_reason [])
    then t.finish_reason
    else if ltb 0 t.tool_index
    then codes "tool_calls"
    else codes "stop"

terminal : AnthropicToChat → AnthropicToChat × List ChatFrame
unfolding terminal_reason chat_usage
terminal t = (
  record t { finished = true },
  final_chunk t.model (terminal_reason t) (chat_usage t.prompt_tokens t.completion_tokens)
      ∷ done
      ∷ [],
)

unfoldable pub finish : AnthropicToChat → AnthropicToChat × List ChatFrame
unfolding terminal
finish t = if t.finished then (t, []) else terminal t

on_message_start : AnthropicToChat → Option EventMessage → AnthropicToChat
on_message_start t none = t
on_message_start t (some m) = record t {
  model = if eq_text t.model [] && not (eq_text m.model []) then m.model else t.model;
  prompt_tokens = elim m.usage [ none ↦ t.prompt_tokens | some input ↦ input ];
}

-- The index of a tool block that starts, and the state that knows it.
place_tool : AnthropicToChat → Option ℕ → ℕ × AnthropicToChat
place_tool t none = (t.tool_index, record t { tool_index = t.tool_index + 1 })
place_tool t (some block) = elim (t.tool_by_block block) [
  | some known ↦ (known, t)
  | none ↦ (
    t.tool_index,
    record t {
      tool_by_block = set_index block t.tool_index t.tool_by_block;
      tool_index = t.tool_index + 1;
    },
  )
]

-- The tool call that arguments are for: that of the block, or else the last one.
tool_of : AnthropicToChat → Option ℕ → ℕ
tool_of t none = t.tool_index - 1
tool_of t (some block) = elim (t.tool_by_block block) [
  | none ↦ t.tool_index - 1
  | some known ↦ known
]

abbrev with_stop : Option EventDelta → AnthropicToChat → AnthropicToChat
with_stop none t = t
with_stop (some d) t = elim d.stop_reason [
  | none ↦ t
  | some stop ↦ record t { finish_reason = anthropic_stop_to_chat stop }
]

abbrev with_usage : Option (Option ℕ) → AnthropicToChat → AnthropicToChat
with_usage none t = t
with_usage (some output) t = record t { completion_tokens = output }

on_message_delta : AnthropicToChat → AnthropicEvent → AnthropicToChat × List ChatFrame
unfolding terminal
on_message_delta t evt = terminal (with_stop evt.delta (with_usage evt.usage t))

-- The text of an error: its message, or the data of the event.
error_text : Option Text → Text → Text
error_text none payload = payload
error_text (some message) payload = if eq_text message [] then payload else message

on_error : AnthropicToChat → AnthropicEvent → Text → AnthropicToChat × List ChatFrame
unfolding emit error_text
on_error t evt payload =
    let (t', frames) =
      emit (record t { finished = true }) (text (codes "[Error] " ++ error_text evt.error payload))
        (some (codes "stop")) in
    (t', frames ++ done ∷ [])

module _ (random_hex_id : ℕ → Text) where
  -- An id, or a drawn one in place of "".
  call_id : AnthropicToChat → Text → Text × AnthropicToChat
  call_id t id =
      if eq_text id []
      then (codes "call_" ++ random_hex_id t.drawn, record t { drawn = t.drawn + 1 })
      else (id, t)

  on_tool_start : AnthropicToChat → Option ℕ → ContentBlock → AnthropicToChat × List ChatFrame
  unfolding place_tool call_id emit
  on_tool_start t block b =
      let (idx, t1) = place_tool t block in
      let t2 : AnthropicToChat = record t1 { tool_started = set_flag idx t1.tool_started } in
      let (id, t3) = call_id t2 b.id in emit t3 (tool_start idx id b.name) none

  on_block_start :
      AnthropicToChat → Option ℕ → Option ContentBlock → AnthropicToChat × List ChatFrame
  unfolding on_tool_start
  on_block_start t block none = (t, [])
  on_block_start t block (some b) =
      if eq_text b.type (codes "tool_use") then on_tool_start t block b else (t, [])

  on_arguments : AnthropicToChat → ℕ → Text → AnthropicToChat × List ChatFrame
  unfolding emit
  on_arguments t idx args =
      if t.tool_started idx
      then emit t (tool_arguments idx args) none
      else (let t1 : AnthropicToChat = record t {
        tool_started = set_flag idx t.tool_started;
        drawn = t.drawn + 1;
      } in
          let (t2, frames) =
            emit t1 (tool_start idx (codes "call_" ++ random_hex_id t.drawn) []) none in
          (t2, frames ++ chunk t2.model false (tool_arguments idx args) none ∷ []))

  on_delta : AnthropicToChat → Option ℕ → Option EventDelta → AnthropicToChat × List ChatFrame
  unfolding emit tool_of on_arguments
  on_delta t block none = (t, [])
  on_delta t block (some d) =
      if eq_text d.type (codes "text_delta")
      then (if eq_text d.text [] then (t, []) else emit t (text d.text) none)
      else if eq_text d.type (codes "input_json_delta")
      then (if eq_text d.partial_json []
          then (t, [])
          else on_arguments t (tool_of t block) d.partial_json)
      else (t, [])

  -- The switch of FeedEvent.
  unfoldable pub on_event :
      EventKind → AnthropicToChat → AnthropicEvent → Text → AnthropicToChat × List ChatFrame
  unfolding on_message_start on_block_start on_delta on_message_delta finish on_error
  on_event message_start t evt payload = (on_message_start t evt.message, [])
  on_event content_block_start t evt payload = on_block_start t evt.index evt.content_block
  on_event content_block_delta t evt payload = on_delta t evt.index evt.delta
  on_event message_delta t evt payload = on_message_delta t evt
  on_event message_stop t evt payload = finish t
  on_event error_ t evt payload = on_error t evt payload
  on_event other t evt payload = (t, [])

  module _ (unmarshal : Text → Option AnthropicEvent) where
    unfoldable pub feed_event : AnthropicToChat → Text × Text → AnthropicToChat × List ChatFrame
    unfolding on_event event_kind
    feed_event t (event, payload) = if t.finished then (t, []) else elim (unmarshal payload) [
      | none ↦ (t, [])
      | some evt ↦
          on_event (event_kind (if eq_text evt.type [] then event else evt.type)) t evt payload
    ]

    -- A whole stream: every event, and Finish behind the last one.
    unfoldable pub translate : AnthropicToChat → List (Text × Text) → List ChatFrame
    unfolding feed_event finish
    translate t [] = (finish t).1
    translate t (e ∷ es) = let (t', frames) = feed_event t e in frames ++ translate t' es
