-- ===== src/Provider/Stream/FromResponses.antt =====
-- ResponsesToChatTranslator (internal/provider/stream_responses.go): the events of a Responses stream as a
-- stream of chat completions. `unmarshal` is json.Unmarshal into responsesEvent, `marshal` json.Marshal
-- of one, "" where it fails; `random_hex_id n` is the n-th value drawn for a call without an id.
pub mod Phases
use pogu.Prelude.{
  ℕ, ◌+◌, ◌-◌, List, [], ◌∷◌, ◌++◌, Option, none, some, Bool, true, false, ◌&&◌, ◌||◌, not, ltb,
  if◌then◌else◌, Text, codes, eq_text,
}
use pogu.Provider.Stream.Chat.{
  ChatFrame, chunk, final_chunk, done, Content, text, reasoning, tool_start, tool_arguments,
  chat_usage, set_flag,
}

-- A value that is missing, a string, or any other value by its encoding.
pub data Argument : Type 0 where
  missing : Argument
  string encoded : Text → Argument

pub record Item : Type 0 where
  pub id : Text
  pub type : Text
  pub call_id : Text
  pub name : Text
  pub arguments : Argument
  pub input : Argument

pub record ResponseUsage : Type 0 where
  pub input_tokens : Option ℕ
  pub prompt_tokens : Option ℕ
  pub output_tokens : Option ℕ
  pub completion_tokens : Option ℕ

pub record Response : Type 0 where
  pub model : Text
  pub usage : Option ResponseUsage
  pub error : Option Text

pub record ResponsesEvent : Type 0 where
  pub type : Text
  pub delta : Text
  pub item_id : Text
  pub item : Option Item
  pub response : Option Response
  pub error : Option Text

pub record ResponsesToChat : Type 0 where
  pub model : Text
  pub role_sent : Bool
  pub tool_index : ℕ
  pub tool_by_item : Text → Option ℕ
  pub args_emitted : ℕ → Bool
  pub prompt_tokens : Option ℕ
  pub completion_tokens : Option ℕ
  pub finished : Bool
  -- how many ids have been drawn
  pub drawn : ℕ

abbrev pub new_responses_to_chat : Text → ResponsesToChat
new_responses_to_chat model = record {
  model = model;
  role_sent = false;
  tool_index = 0;
  tool_by_item = λ key. none;
  args_emitted = λ i. false;
  prompt_tokens = none;
  completion_tokens = none;
  finished = false;
  drawn = 0;
}

pub data EventKind : Type 0 where
  text_delta item_added arguments_delta item_done completed failed reasoning_delta other : EventKind

unfoldable pub event_kind : Text → EventKind
event_kind typ =
    if eq_text typ (codes "response.output_text.delta")
    then text_delta
    else if eq_text typ (codes "response.output_item.added")
    then item_added
    else if eq_text typ (codes "response.function_call_arguments.delta")
        || eq_text typ (codes "response.custom_tool_call_input.delta")
    then arguments_delta
    else if eq_text typ (codes "response.output_item.done")
    then item_done
    else if eq_text typ (codes "response.completed")
        || eq_text typ (codes "response.done")
        || eq_text typ (codes "response.incomplete")
    then completed
    else if eq_text typ (codes "error") || eq_text typ (codes "response.failed")
    then failed
    else if eq_text typ (codes "response.reasoning_summary_text.delta")
    then reasoning_delta
    else other

abbrev first_some : Option ℕ → Option ℕ → Option ℕ
first_some none b = b
first_some (some a) b = some a

-- usagePair
usage_pair : Option Response → Option ℕ × Option ℕ
usage_pair none = (none, none)
usage_pair (some r) = elim r.usage [
  | none ↦ (none, none)
  | some u ↦
      (first_some u.input_tokens u.prompt_tokens, first_some u.output_tokens u.completion_tokens)
]

-- argumentsString
unfoldable pub arguments_string : Argument → Argument → Text
arguments_string (string s) fallback = s
arguments_string (encoded e) (string s) = s
arguments_string missing (string s) = s
arguments_string (encoded e) missing = e
arguments_string (encoded e) (encoded e') = e
arguments_string missing (encoded e) = e
arguments_string missing missing = []

-- A chunk behind `delta`, which adds the role to the first one.
emit : ResponsesToChat → Content → Option Text → ResponsesToChat × List ChatFrame
emit t content finish =
    (record t { role_sent = true }, chunk t.model (not t.role_sent) content finish ∷ [])

-- A chunk with a text, where there is one.
emit_text : ResponsesToChat → (Text → Content) → Text → ResponsesToChat × List ChatFrame
unfolding emit
emit_text t content s = if eq_text s [] then (t, []) else emit t (content s) none

terminal : ResponsesToChat → ResponsesToChat × List ChatFrame
unfolding chat_usage
terminal t = (
  record t { finished = true },
  final_chunk t.model (if ltb 0 t.tool_index then codes "tool_calls" else codes "stop")
        (chat_usage t.prompt_tokens t.completion_tokens)
      ∷ done
      ∷ [],
)

unfoldable pub finish : ResponsesToChat → ResponsesToChat × List ChatFrame
unfolding terminal
finish t = if t.finished then (t, []) else terminal t

is_call : Item → Bool
is_call i = eq_text i.type (codes "function_call") || eq_text i.type (codes "custom_tool_call")

abbrev or_text : Text → Text → Text
or_text a b = if eq_text a [] then b else a

-- The index of an item that is added, and the state that knows it.
place_item : ResponsesToChat → Text → ℕ × ResponsesToChat
place_item t key = elim (t.tool_by_item key) [
  | some known ↦ (known, t)
  | none ↦ (
    t.tool_index,
    record t {
      tool_index = t.tool_index + 1;
      tool_by_item =
          if eq_text key []
          then t.tool_by_item
          else (λ k. if eq_text key k then some t.tool_index else t.tool_by_item k);
    },
  )
]

-- The index that a key is known by, or the last one, or 0.
tool_of : ResponsesToChat → Text → ℕ
tool_of t key = elim (t.tool_by_item key) [ none ↦ t.tool_index - 1 | some known ↦ known ]

emit_arguments : ResponsesToChat → ℕ → Text → ResponsesToChat × List ChatFrame
unfolding emit
emit_arguments t idx args =
    emit (record t { args_emitted = set_flag idx t.args_emitted }) (tool_arguments idx args) none

on_arguments : ResponsesToChat → ResponsesEvent → ResponsesToChat × List ChatFrame
unfolding emit_arguments tool_of
on_arguments t evt =
    if eq_text evt.delta [] then (t, []) else emit_arguments t (tool_of t evt.item_id) evt.delta

-- The arguments of an item that is done, where no delta gave them.
done_arguments : ResponsesToChat → ℕ → Text → ResponsesToChat × List ChatFrame
unfolding emit_arguments
done_arguments t idx args =
    if t.args_emitted idx || eq_text args [] then (t, []) else emit_arguments t idx args

on_item_done : ResponsesToChat → ResponsesEvent → Option Item → ResponsesToChat × List ChatFrame
unfolding done_arguments tool_of is_call arguments_string
on_item_done t evt none = (t, [])
on_item_done t evt (some i) =
    if is_call i
    then done_arguments t (tool_of t (or_text i.id evt.item_id))
        (arguments_string i.arguments i.input)
    else (t, [])

abbrev with_counts : ResponsesToChat → Option ℕ × Option ℕ → ResponsesToChat
with_counts t (none, none) = t
with_counts t (some input, output) = record t {
  prompt_tokens = some input;
  completion_tokens = output;
}
with_counts t (none, some output) = record t {
  prompt_tokens = none;
  completion_tokens = some output;
}

on_completed : ResponsesToChat → ResponsesEvent → ResponsesToChat × List ChatFrame
unfolding terminal usage_pair
on_completed t evt = terminal (with_counts t (usage_pair evt.response))

abbrev error_of : Option Text → Option Response → Text
error_of (some message) response = message
error_of none none = []
error_of none (some r) = elim r.error [ none ↦ [] | some message ↦ message ]

-- t.model, once it is known
with_model : ResponsesToChat → Option Response → ResponsesToChat
with_model t none = t
with_model t (some r) = record t { model = or_text t.model r.model }

module _ (random_hex_id : ℕ → Text) where
  on_item_added : ResponsesToChat → ResponsesEvent → Option Item → ResponsesToChat × List ChatFrame
  unfolding place_item emit is_call
  on_item_added t evt none = (t, [])
  on_item_added t evt (some i) =
      if is_call i
      then (let (idx, t1) = place_item t (or_text (or_text i.id evt.item_id) i.call_id) in
          if eq_text i.call_id []
          then emit (record t1 { drawn = t1.drawn + 1 })
              (tool_start idx (codes "call_" ++ random_hex_id t1.drawn) i.name) none
          else emit t1 (tool_start idx i.call_id i.name) none)
      else (t, [])

  module _ (marshal : ResponsesEvent → Text) where
    on_failed : ResponsesToChat → ResponsesEvent → ResponsesToChat × List ChatFrame
    unfolding emit
    on_failed t evt =
        let (t', frames) =
          emit (record t { finished = true })
            (text (codes "[Error] " ++ or_text (error_of evt.error evt.response) (marshal evt)))
            (some (codes "stop")) in
        (t', frames ++ done ∷ [])

    -- The switch of FeedEvent.
    unfoldable pub on_event :
        EventKind → ResponsesToChat → ResponsesEvent → ResponsesToChat × List ChatFrame
    unfolding emit_text on_item_added on_arguments on_item_done on_completed on_failed
    on_event text_delta t evt = emit_text t text evt.delta
    on_event item_added t evt = on_item_added t evt evt.item
    on_event arguments_delta t evt = on_arguments t evt
    on_event item_done t evt = on_item_done t evt evt.item
    on_event completed t evt = on_completed t evt
    on_event failed t evt = on_failed t evt
    on_event reasoning_delta t evt = emit_text t reasoning evt.delta
    on_event other t evt = (t, [])

    module _ (unmarshal : Text → Option ResponsesEvent) where
      unfoldable pub feed_event : ResponsesToChat → Text × Text → ResponsesToChat × List ChatFrame
      unfolding on_event event_kind with_model
      feed_event t (event, payload) = if t.finished then (t, []) else elim (unmarshal payload) [
        | none ↦ (t, [])
        | some evt ↦ on_event (event_kind (or_text evt.type event)) (with_model t evt.response) evt
      ]

      -- A whole stream: every event, and Finish behind the last one.
      unfoldable pub translate : ResponsesToChat → List (Text × Text) → List ChatFrame
      unfolding feed_event finish
      translate t [] = (finish t).1
      translate t (e ∷ es) = let (t', frames) = feed_event t e in frames ++ translate t' es
