-- ===== src/Provider/Stream/ToAnthropic/Blocks.antt =====
-- A translator against the reader of Events: how frames follow one another, and the start and the end of
-- a block.
use pogu.Prelude.{
  ℕ, ◌<◌, ◌≡◌, refl, sym, ap, ◌∙◌, [], none, some, Bool, true, false, arith, inl, inr, Option-cases,
}
use pogu.Provider.Stream.Chat.{set_flag}
use pogu.Provider.Stream.ToAnthropic.Events.{
  Kind, Block, text_block, thinking_block, tool_block, kind_of, Phase, live, Reading, is_open,
  read_all, read_all-append, tools_with,
}
use pogu.Provider.Stream.ToAnthropic.{ChatToAnthropic, Written, followed, close_block, start_block}

-- Where the reader stands behind a translator's frames, in a phase.
abbrev pub reading : Phase → ChatToAnthropic → (ℕ → Bool) → Reading
reading p t tools = record {
  phase = p;
  next = t.block_index;
  open_block = t.open_block;
  tools = tools;
}

-- A translator within a message: every tool call that is known has a tool block, and an open block has an
-- index.
pub record Agrees (t : ChatToAnthropic) (tools : ℕ → Bool) : Type 0 where
  pub known : (c b : ℕ) → t.tool_blocks c ≡ some b → tools b ≡ true
  pub begun : t.started ≡ true
  pub unfinished : t.finished ≡ false
  pub placed : is_open t.open_block ≡ true → 0 < t.block_index

-- The frames are read from one phase to another, and what is known of the tools agrees again.
abbrev pub Reads : Phase → Phase → ChatToAnthropic → (ℕ → Bool) → Written → Type 0
Reads p q t tools (t', frames) =
    (tools' : ℕ → Bool) × (read_all frames (reading p t tools) ≡ some (reading q t' tools'))
    × Agrees t' tools'

pub nothing-Reads :
    (p : Phase) (t : ChatToAnthropic) (tools : ℕ → Bool)
    → Agrees t tools
    → Reads p p t tools (t, [])
unfolding read_all
nothing-Reads p t tools a = (tools, refl, a)

pub followed-Reads :
    (p q s : Phase) (t : ChatToAnthropic) (tools : ℕ → Bool) (m : Written)
    (next : ChatToAnthropic → Written)
    → Reads p q t tools m
    → ((tools' : ℕ → Bool) → Agrees m.0 tools' → Reads q s m.0 tools' (next m.0))
    → Reads p s t tools (followed m next)
followed-Reads p q s t tools (t', frames) next (tools', h, a) more =
    let (tools'', h', a') = more tools' a in
    (tools'', read_all-append frames (next t').1 (reading p t tools) h ∙ h', a')

pub close_block-kept :
    (t : ChatToAnthropic)
    → ((close_block t).0.tool_blocks ≡ t.tool_blocks)
      × ((close_block t).0.block_index ≡ t.block_index)
      × ((close_block t).0.open_block ≡ none)
      × ((close_block t).0.started ≡ t.started)
      × ((close_block t).0.finished ≡ t.finished)
unfolding close_block
close_block-kept t = elim (Option-cases t.open_block) [
  | inl e ↦ (ground arith, ground arith, ground arith, ground arith, ground arith)
  | inr (k, e) ↦ (ground arith, ground arith, ground arith, ground arith, ground arith)
]

pub close_block-reading :
    (t : ChatToAnthropic) (tools : ℕ → Bool)
    → (is_open t.open_block ≡ true → 0 < t.block_index)
    → read_all (close_block t).1 (reading live t tools)
      ≡ some (reading live (close_block t).0 tools)
unfolding close_block read_all
close_block-reading t tools placed = ground (arith, placed)

pub close_block-Reads :
    (t : ChatToAnthropic) (tools : ℕ → Bool)
    → Agrees t tools
    → Reads live live t tools (close_block t)
close_block-Reads t tools a =
    let (same, index, shut, begun, unfinished) = close_block-kept t in
    (
      tools,
      close_block-reading t tools a.placed,
      record {
        known = λ c b h. a.known c b (sym (ap (λ f. f c) same) ∙ h);
        begun = begun ∙ a.begun;
        unfinished = unfinished ∙ a.unfinished;
        placed = λ h. absurd (ground (arith, h, shut));
      },
    )

pub set_flag_kept : (i b : ℕ) (tools : ℕ → Bool) → tools b ≡ true → set_flag i tools b ≡ true
set_flag_kept i b tools h = ground (arith, h)

tools_with_kept :
    (k : Block) (i b : ℕ) (tools : ℕ → Bool) → tools b ≡ true → tools_with k i tools b ≡ true
tools_with_kept text_block i b tools h = h
tools_with_kept thinking_block i b tools h = h
tools_with_kept (tool_block id name) i b tools h = set_flag_kept i b tools h

start_block-reading :
    (k : Kind) (b : Block) (t : ChatToAnthropic) (tools : ℕ → Bool)
    → kind_of b ≡ k
    → t.open_block ≡ none
    → read_all (start_block k b t).1 (reading live t tools)
      ≡ some (reading live (start_block k b t).0 (tools_with b t.block_index tools))
unfolding start_block read_all
start_block-reading k text_block t tools e h = ground (arith, e, h)
start_block-reading k thinking_block t tools e h = ground (arith, e, h)
start_block-reading k (tool_block id name) t tools e h = ground (arith, e, h)

pub start_block-Reads :
    (k : Kind) (b : Block) (t : ChatToAnthropic) (tools : ℕ → Bool)
    → kind_of b ≡ k
    → t.open_block ≡ none
    → Agrees t tools
    → Reads live live t tools (start_block k b t)
unfolding start_block
start_block-Reads k b t tools e h a = (
  tools_with b t.block_index tools,
  start_block-reading k b t tools e h,
  record {
    known = λ c i known. tools_with_kept b t.block_index i tools (a.known c i known);
    begun = a.begun;
    unfinished = a.unfinished;
    placed = λ _. omega arith;
  },
)
