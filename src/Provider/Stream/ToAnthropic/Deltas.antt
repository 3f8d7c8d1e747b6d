-- ===== src/Provider/Stream/ToAnthropic/Deltas.antt =====
-- Deltas against the reader of Events: textFrames, thinkingFrames, the arguments of tool calls, closeFrames.
use pogu.Prelude.{
  ℕ, ◌-◌, ◌<◌, ◌≡◌, refl, ◌∙◌, [], ◌∷◌, Option, none, some, Bool, true, Text, arith, Bool-cases,
  inl, inr, eq_text,
}
use pogu.Provider.Stream.ToAnthropic.Events.{
  Kind, text, thinking, tool, same_kind, Block, text_block, thinking_block, kind_of, BlockDelta,
  text_delta, thinking_delta, live, ended, is_open, read_all, read_all-append, content_block_delta,
  message_delta, message_stop,
}
use pogu.Provider.Stream.ToAnthropic.{
  ChatToAnthropic, Written, close_block, start_block, ensure_block, delta_frames, text_frames,
  thinking_frames, given, arguments_frames, close_frames,
}
use pogu.Provider.Stream.ToAnthropic.Blocks.{
  reading, Agrees, Reads, nothing-Reads, followed-Reads, close_block-kept, close_block-reading,
  close_block-Reads, start_block-Reads,
}

ensure_block-Reads :
    (k : Kind) (b : Block) (t : ChatToAnthropic) (tools : ℕ → Bool)
    → kind_of b ≡ k
    → Agrees t tools
    → Reads live live t tools (ensure_block k b t)
unfolding ensure_block
ensure_block-Reads k b t tools e a = elim (Bool-cases (same_kind t.open_block k)) [
  | inl same ↦ rw (same, ensure_block) (nothing-Reads live t tools a)
  | inr new ↦
      rw (new, ensure_block)
        (followed-Reads live live live t tools (close_block t) (start_block k b)
          (close_block-Reads t tools a)
          (λ tools' a'. start_block-Reads k b (close_block t).0 tools' e (close_block-kept t).2 a'))
]

same_kind_refl : (k : Kind) → same_kind (some k) k ≡ true
same_kind_refl text = refl
same_kind_refl thinking = refl
same_kind_refl tool = refl

ensure_block-open :
    (k : Kind) (b : Block) (t : ChatToAnthropic)
    → same_kind (ensure_block k b t).0.open_block k ≡ true
unfolding ensure_block start_block
ensure_block-open k b t = ground (arith, same_kind_refl k)

-- A delta of a kind of text
data FitsKind : Kind → BlockDelta → Type 0 where
  text_fits : (s : Text) → FitsKind text (text_delta s)
  thinking_fits : (s : Text) → FitsKind thinking (thinking_delta s)

same_kind-open : (o : Option Kind) (k : Kind) → same_kind o k ≡ true → is_open o ≡ true
same_kind-open none text h = h
same_kind-open none thinking h = h
same_kind-open none tool h = h
same_kind-open (some k') k h = refl

delta-Reads :
    (k : Kind) (d : BlockDelta) (t : ChatToAnthropic) (tools : ℕ → Bool)
    → FitsKind k d
    → same_kind t.open_block k ≡ true
    → Agrees t tools
    → Reads live live t tools (t, content_block_delta (t.block_index - 1) d ∷ [])
unfolding read_all
delta-Reads _ _ t tools (text_fits s) h a =
    (tools, ground (arith, h, a.placed (same_kind-open t.open_block text h)), a)
delta-Reads _ _ t tools (thinking_fits s) h a =
    (tools, ground (arith, h, a.placed (same_kind-open t.open_block thinking h)), a)

delta_frames-Reads :
    (k : Kind) (b : Block) (d : BlockDelta) (t : ChatToAnthropic) (tools : ℕ → Bool)
    → kind_of b ≡ k
    → FitsKind k d
    → Agrees t tools
    → Reads live live t tools (delta_frames k b d t)
unfolding delta_frames
delta_frames-Reads k b d t tools e fits a =
    followed-Reads live live live t tools (ensure_block k b t)
      (λ t'. (t', content_block_delta (t'.block_index - 1) d ∷ []))
      (ensure_block-Reads k b t tools e a)
      (λ tools' a'. delta-Reads k d (ensure_block k b t).0 tools' fits (ensure_block-open k b t) a')

pub given-Reads :
    (o : Option Text) (frames : Text → ChatToAnthropic → Written) (t : ChatToAnthropic)
    (tools : ℕ → Bool)
    → ((s : Text) → Reads live live t tools (frames s t))
    → Agrees t tools
    → Reads live live t tools (given o frames t)
unfolding given
given-Reads none frames t tools f a = nothing-Reads live t tools a
given-Reads (some s) frames t tools f a = elim (Bool-cases (eq_text s [])) [
  | inl e ↦ rw (e, given) (nothing-Reads live t tools a)
  | inr e ↦ rw (e, given) (f s)
]

pub text_frames-Reads :
    (s : Text) (t : ChatToAnthropic) (tools : ℕ → Bool)
    → Agrees t tools
    → Reads live live t tools (text_frames s t)
unfolding text_frames
text_frames-Reads s t tools a =
    delta_frames-Reads text text_block (text_delta s) t tools refl (text_fits s) a

pub thinking_frames-Reads :
    (s : Text) (t : ChatToAnthropic) (tools : ℕ → Bool)
    → Agrees t tools
    → Reads live live t tools (thinking_frames s t)
unfolding thinking_frames
thinking_frames-Reads s t tools a =
    delta_frames-Reads thinking thinking_block (thinking_delta s) t tools refl (thinking_fits s) a

pub arguments_frames-Reads :
    (block : ℕ) (args : Text) (t : ChatToAnthropic) (tools : ℕ → Bool)
    → tools block ≡ true
    → Agrees t tools
    → Reads live live t tools (arguments_frames block args t)
unfolding arguments_frames read_all
arguments_frames-Reads block args t tools h a = elim (Bool-cases (eq_text args [])) [
  | inl e ↦ rw (e, arguments_frames) (nothing-Reads live t tools a)
  | inr e ↦ rw (e, arguments_frames) (tools, ground (arith, h), a)
]

pub close_frames-reading :
    (stop : Text) (output : Option ℕ) (t : ChatToAnthropic) (tools : ℕ → Bool)
    → (is_open t.open_block ≡ true → 0 < t.block_index)
    → read_all (close_frames stop output t).1 (reading live t tools)
      ≡ some (reading ended (close_frames stop output t).0 tools)
unfolding close_frames read_all
close_frames-reading stop output t tools placed =
    read_all-append (close_block t).1 _ (reading live t tools) (close_block-reading t tools placed)
    ∙ ended_here (close_block t).0 (close_block-kept t).2
  where
    ended_here :
        (t' : ChatToAnthropic)
        → t'.open_block ≡ none
        → read_all (message_delta stop output ∷ message_stop ∷ []) (reading live t' tools)
          ≡ some (reading ended t' tools)
    ended_here t' e = ground (arith, e)
