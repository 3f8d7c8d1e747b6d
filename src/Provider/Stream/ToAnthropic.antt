-- ===== src/Provider/Stream/ToAnthropic.antt =====
-- ChatToAnthropicTranslator (internal/provider/stream_anthropic.go): the chunks of a stream of chat
-- completions as an Anthropic stream. `unmarshal` is json.Unmarshal into chatChunk; `random_hex_id n`
-- is the n-th value that randomHexID draws for a tool call without an id. The message's id, which
-- nothing changes, is left out. An index of a tool call is an int, as its bit pattern.
pub mod Events
pub mod Blocks
pub mod Deltas
pub mod WellFormed
use pogu.Prelude.{
  ℕ, ◌+◌, ◌-◌, List, [], ◌∷◌, ◌++◌, Option, none, some, Bool, true, false, ◌&&◌, ◌||◌, not,
  if◌then◌else◌, Text, codes, eq_text,
}
use pogu.Provider.Stream.Chat.{set_index}
use pogu.Provider.Stream.ToAnthropic.Events.{
  Kind, text, thinking, tool, same_kind, AnthropicFrame, message_start, content_block_start,
  content_block_delta, content_block_stop, message_delta, message_stop, Block, text_block,
  thinking_block, tool_block, BlockDelta, text_delta, thinking_delta, input_json_delta,
}

-- chatToolCallDelta, and the tool calls of chatChunk
pub record ToolCall : Type 0 where
  pub index : Option ℕ
  pub id : Text
  pub name : Text
  pub arguments : Text

pub record Choice : Type 0 where
  pub content : Option Text
  pub reasoning_content : Option Text
  pub tool_calls : List ToolCall
  pub finish_reason : Option Text

-- `choice` is the first choice; `completion_tokens` is that of the usage, where there is one.
pub record ChatChunk : Type 0 where
  pub model : Text
  pub choice : Option Choice
  pub completion_tokens : Option ℕ

-- `open_block` is none for "".
pub record ChatToAnthropic : Type 0 where
  pub model : Text
  pub started : Bool
  pub block_index : ℕ
  pub open_block : Option Kind
  pub tool_blocks : ℕ → Option ℕ
  pub finished : Bool
  -- how many ids have been drawn
  pub drawn : ℕ

abbrev pub new_chat_to_anthropic : Text → ChatToAnthropic
new_chat_to_anthropic model = record {
  model = model;
  started = false;
  block_index = 0;
  open_block = none;
  tool_blocks = λ i. none;
  finished = false;
  drawn = 0;
}

unfoldable pub chat_finish_to_anthropic : Text → Text
chat_finish_to_anthropic finish =
    if eq_text finish (codes "length")
    then codes "max_tokens"
    else if eq_text finish (codes "tool_calls") || eq_text finish (codes "function_call")
    then codes "tool_use"
    else if eq_text finish (codes "content_filter")
    then codes "refusal"
    else codes "end_turn"

abbrev pub Written : Type 0
Written = ChatToAnthropic × List AnthropicFrame

-- Frames appended to the frames so far.
abbrev pub followed : Written → (ChatToAnthropic → Written) → Written
followed (t, frames) next = let (t', more) = next t in (t', frames ++ more)

pub close_block : ChatToAnthropic → Written
close_block t = elim t.open_block [
  | none ↦ (t, [])
  | some k ↦ (record t { open_block = none }, content_block_stop (t.block_index - 1) ∷ [])
]

-- The start of a block, behind the end of the one that is open.
pub start_block : Kind → Block → ChatToAnthropic → Written
start_block k b t = (
  record t { open_block = some k; block_index = t.block_index + 1 },
  content_block_start t.block_index b ∷ [],
)

-- The end of the open block and the start of one of the kind, unless that is open.
ensure_block : Kind → Block → ChatToAnthropic → Written
unfolding close_block start_block
ensure_block k b t =
    if same_kind t.open_block k then (t, []) else followed (close_block t) (start_block k b)

-- textFrames and thinkingFrames
delta_frames : Kind → Block → BlockDelta → ChatToAnthropic → Written
unfolding ensure_block
delta_frames k b d t =
    followed (ensure_block k b t) (λ t'. (t', content_block_delta (t'.block_index - 1) d ∷ []))

pub text_frames : Text → ChatToAnthropic → Written
unfolding delta_frames
text_frames s t = delta_frames text text_block (text_delta s) t

pub thinking_frames : Text → ChatToAnthropic → Written
unfolding delta_frames
thinking_frames s t = delta_frames thinking thinking_block (thinking_delta s) t

-- A content of the delta that is there and not "".
pub given : Option Text → (Text → ChatToAnthropic → Written) → ChatToAnthropic → Written
given none frames t = (t, [])
given (some s) frames t = if eq_text s [] then (t, []) else frames s t

pub arguments_frames : ℕ → Text → ChatToAnthropic → Written
arguments_frames block args t =
    if eq_text args [] then (t, []) else (t, content_block_delta block (input_json_delta args) ∷ [])

pub close_frames : Text → Option ℕ → ChatToAnthropic → Written
unfolding close_block
close_frames stop output t =
    followed (close_block t) (λ t'. (t', message_delta stop output ∷ message_stop ∷ []))

abbrev chat_index : ToolCall → ℕ
chat_index tc = elim tc.index [ none ↦ 0 | some i ↦ i ]

-- message_start, once
start_frames : ChatToAnthropic → Written
start_frames t =
    if t.started then (t, []) else (record t { started = true }, message_start t.model ∷ [])

finish_frames : ChatChunk → Option Text → ChatToAnthropic → Written
unfolding close_frames chat_finish_to_anthropic
finish_frames c none t = (t, [])
finish_frames c (some reason) t =
    let (t', frames) = close_frames (chat_finish_to_anthropic reason) c.completion_tokens t in
    (record t' { finished = true }, frames)

unfoldable pub finish : ChatToAnthropic → Written
unfolding close_frames
finish t =
    if t.finished
    then (t, [])
    else close_frames (codes "end_turn") none (record t { finished = true })

module _ (random_hex_id : ℕ → Text) where
  -- A tool block with the call's id, or a drawn one in place of "".
  start_tool : ToolCall → ChatToAnthropic → Written
  unfolding start_block
  start_tool tc t =
      let t' : ChatToAnthropic = record t {
        tool_blocks = set_index (chat_index tc) t.block_index t.tool_blocks;
      } in
      if eq_text tc.id []
      then start_block tool (tool_block (codes "call_" ++ random_hex_id t.drawn) tc.name)
          (record t' { drawn = t.drawn + 1 })
      else start_block tool (tool_block tc.id tc.name) t'

  tool_frames : ToolCall → ChatToAnthropic → Written
  unfolding close_block start_tool arguments_frames
  tool_frames tc t = elim (t.tool_blocks (chat_index tc)) [
    | some block ↦ arguments_frames block tc.arguments t
    | none ↦
        followed (followed (close_block t) (start_tool tc))
          (arguments_frames t.block_index tc.arguments)
  ]

  tool_calls_frames : List ToolCall → ChatToAnthropic → Written
  unfolding tool_frames
  tool_calls_frames [] t = (t, [])
  tool_calls_frames (tc ∷ tcs) t = followed (tool_frames tc t) (tool_calls_frames tcs)

  choice_frames : ChatChunk → Option Choice → ChatToAnthropic → Written
  unfolding text_frames thinking_frames given tool_calls_frames finish_frames
  choice_frames c none t = (t, [])
  choice_frames c (some x) t =
      followed
        (followed
          (followed (given x.content text_frames t) (given x.reasoning_content thinking_frames))
          (tool_calls_frames x.tool_calls))
        (finish_frames c x.finish_reason)

  module _ (unmarshal : Text → Option ChatChunk) where
    unfoldable pub feed_chunk : ChatToAnthropic → Text → Written
    unfolding start_frames choice_frames
    feed_chunk t payload = if t.finished then (t, []) else elim (unmarshal payload) [
      | none ↦ (t, [])
      | some c ↦
          let t' : ChatToAnthropic = record t {
            model = if eq_text t.model [] then c.model else t.model;
          } in
          followed (start_frames t') (choice_frames c c.choice)
    ]

    -- A whole stream: every chunk, and Finish behind the last one.
    unfoldable pub translate : ChatToAnthropic → List Text → List AnthropicFrame
    unfolding feed_chunk finish
    translate t [] = (finish t).1
    translate t (p ∷ ps) = let (t', frames) = feed_chunk t p in frames ++ translate t' ps
