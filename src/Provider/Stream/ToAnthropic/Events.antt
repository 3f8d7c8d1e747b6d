-- ===== src/Provider/Stream/ToAnthropic/Events.antt =====
-- What ChatToAnthropicTranslator writes, the frames of an Anthropic stream, and a reader of such streams.
use pogu.Prelude.{
  ℕ, ◌+◌, ◌≡◌, List, [], ◌∷◌, ◌++◌, Option, none, some, Bool, true, false, ◌&&◌, ◌==◌, Text, sym,
  ap, ◌∙◌, some-eq-some, none-ne-some, Option-cases, inl, inr,
}
use pogu.Provider.Stream.Chat.{set_flag}

pub data Kind : Type 0 where
  text thinking tool : Kind

abbrev pub same_kind : Option Kind → Kind → Bool
same_kind (some text) text = true
same_kind (some thinking) thinking = true
same_kind (some tool) tool = true
same_kind _ _ = false

-- `tool_block id name`
pub data Block : Type 0 where
  text_block thinking_block : Block
  tool_block : Text → Text → Block

abbrev pub kind_of : Block → Kind
kind_of text_block = text
kind_of thinking_block = thinking
kind_of (tool_block id name) = tool

pub data BlockDelta : Type 0 where
  text_delta thinking_delta input_json_delta : Text → BlockDelta

-- `message_start model`, then blocks by their index, `message_delta stop_reason output_tokens`.
pub data AnthropicFrame : Type 0 where
  message_start : Text → AnthropicFrame
  content_block_start : ℕ → Block → AnthropicFrame
  content_block_delta : ℕ → BlockDelta → AnthropicFrame
  content_block_stop : ℕ → AnthropicFrame
  message_delta : Text → Option ℕ → AnthropicFrame
  message_stop : AnthropicFrame

pub data Phase : Type 0 where
  idle live closing ended : Phase

-- Where a reader stands: the index of the next block, the kind of the open one, and which
-- blocks are tool calls.
pub record Reading : Type 0 where
  pub phase : Phase
  pub next : ℕ
  pub open_block : Option Kind
  pub tools : ℕ → Bool

abbrev pub start : Reading
start = record { phase = idle; next = 0; open_block = none; tools = λ i. false }

abbrev is_live : Phase → Bool
is_live live = true
is_live _ = false

abbrev pub is_open : Option Kind → Bool
is_open none = false
is_open (some k) = true

abbrev pub tools_with : Block → ℕ → (ℕ → Bool) → ℕ → Bool
tools_with (tool_block id name) i tools = set_flag i tools
tools_with _ i tools = tools

abbrev accept : Bool → Reading → Option Reading
accept true r = some r
accept false r = none

-- One frame. Blocks are numbered in order from 0, and only one is open: a start needs that none is, a
-- stop closes the open one. A delta of text or thinking is for the open block, of that kind;
-- arguments are for a block that was started as a tool call. The message ends when no block is open.
unfoldable pub read : AnthropicFrame → Reading → Option Reading
read (message_start model) r = elim r.phase [ idle ↦ some (record r { phase = live }) | _ ↦ none ]
read (content_block_start i b) r = elim r.open_block [
  | some k ↦ none
  | none ↦ accept (is_live r.phase && i == r.next) (record r {
    next = r.next + 1;
    open_block = some (kind_of b);
    tools = tools_with b i r.tools;
  })
]
read (content_block_delta i (text_delta s)) r =
    accept (is_live r.phase && i + 1 == r.next && same_kind r.open_block text) r
read (content_block_delta i (thinking_delta s)) r =
    accept (is_live r.phase && i + 1 == r.next && same_kind r.open_block thinking) r
read (content_block_delta i (input_json_delta args)) r = accept (is_live r.phase && r.tools i) r
read (content_block_stop i) r =
    accept (is_live r.phase && i + 1 == r.next && is_open r.open_block)
      (record r { open_block = none })
read (message_delta stop output) r = elim r.open_block [
  | some k ↦ none
  | none ↦ accept (is_live r.phase) (record r { phase = closing })
]
read message_stop r = elim r.phase [ closing ↦ some (record r { phase = ended }) | _ ↦ none ]

unfoldable pub read_all : List AnthropicFrame → Reading → Option Reading
unfolding read
read_all [] r = some r
read_all (f ∷ fs) r = elim (read f r) [ none ↦ none | some r' ↦ read_all fs r' ]

pub read_all-append :
    (fs gs : List AnthropicFrame) (r : Reading) {r' : Reading}
    → read_all fs r ≡ some r'
    → read_all (fs ++ gs) r ≡ read_all gs r'
unfolding read_all
read_all-append [] gs r h = ap (read_all gs) (some-eq-some h)
read_all-append (f ∷ fs) gs r {r'} h = elim (Option-cases (read f r)) [
  | inl e ↦ absurd (none-ne-some (sym (rw (e, read_all)) ∙ h))
  | inr (q, e) ↦ rw (e, read_all) (read_all-append fs gs q (rw (e, read_all) at h))
]
