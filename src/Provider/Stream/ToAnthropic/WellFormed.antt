-- ===== src/Provider/Stream/ToAnthropic/WellFormed.antt =====
-- The streams that ChatToAnthropicTranslator writes, against the reader of Events.
use pogu.Prelude.{
  ℕ, ◌+◌, ◌≡◌, ◌⊎◌, refl, sym, ap, subst, ◌∙◌, List, [], ◌∷◌, ◌++◌, Option, none, some, Bool, true,
  false, ◌==◌, if◌then◌else◌, Text, arith, Bool-cases, inl, inr, Option-cases, eq_text, codes,
  none-ne-some,
}
use pogu.Provider.Stream.Chat.{set_flag, set_index}
use pogu.Provider.Stream.ToAnthropic.Events.{
  tool, AnthropicFrame, tool_block, live, ended, Reading, start, read_all, read_all-append,
  message_start,
}
use pogu.Provider.Stream.ToAnthropic.{
  ToolCall, Choice, ChatChunk, ChatToAnthropic, new_chat_to_anthropic, chat_finish_to_anthropic,
  Written, followed, close_block, start_block, text_frames, thinking_frames, given,
  arguments_frames, close_frames, chat_index, start_frames, finish_frames, finish, start_tool,
  tool_frames, tool_calls_frames, choice_frames, feed_chunk, translate,
}
use pogu.Provider.Stream.ToAnthropic.Blocks.{
  reading, Agrees, Reads, nothing-Reads, followed-Reads, close_block-kept, close_block-Reads,
  set_flag_kept,
}
use pogu.Provider.Stream.ToAnthropic.Deltas.{
  given-Reads, text_frames-Reads, thinking_frames-Reads, arguments_frames-Reads,
  close_frames-reading,
}

-- The known tool calls behind a new one.
placed_known :
    (c : ℕ) (t : ChatToAnthropic) (tools : ℕ → Bool)
    → Agrees t tools
    → (c' b : ℕ) → set_index c t.block_index t.tool_blocks c' ≡ some b
    → set_flag t.block_index tools b ≡ true
placed_known c t tools a c' b h = elim (Bool-cases (c == c')) [
  | inl e ↦ ground (arith, rw e at h)
  | inr e ↦ set_flag_kept t.block_index b tools (a.known c' b (rw e at h))
]

-- The start of a tool block that is known by the index c.
tool_block-Reads :
    (c drawn : ℕ) (id name : Text) (t : ChatToAnthropic) (tools : ℕ → Bool)
    → t.open_block ≡ none
    → Agrees t tools
    → Reads live live t tools (
        start_block tool
          (tool_block id name)
          (record t { tool_blocks = set_index c t.block_index t.tool_blocks; drawn = drawn }))
unfolding start_block read_all
tool_block-Reads c drawn id name t tools e a = (
  set_flag t.block_index tools,
  ground (arith, e),
  record {
    known = placed_known c t tools a;
    begun = a.begun;
    unfinished = a.unfinished;
    placed = λ _. omega arith;
  },
)

module _ (random_hex_id : ℕ → Text) (tc : ToolCall) (t : ChatToAnthropic) where
  start_tool-Reads :
      (tools : ℕ → Bool)
      → t.open_block ≡ none
      → Agrees t tools
      → Reads live live t tools (start_tool random_hex_id tc t)
  unfolding start_tool
  start_tool-Reads tools e a = elim (Bool-cases (eq_text tc.id [])) [
    | inl d ↦
        let drawn : start_tool random_hex_id tc t
            ≡ start_block tool (tool_block (codes "call_" ++ random_hex_id t.drawn) tc.name)
                (record t {
                  tool_blocks = set_index (chat_index tc) t.block_index t.tool_blocks;
                  drawn = t.drawn + 1;
                }) =
          simp (d, start_tool) in
        subst (Reads live live t tools) (sym drawn)
          (tool_block-Reads (chat_index tc) _ _ _ t tools e a)
    | inr d ↦
        let named : start_tool random_hex_id tc t
            ≡ start_block tool (tool_block tc.id tc.name)
                (record t { tool_blocks = set_index (chat_index tc) t.block_index t.tool_blocks }) =
          simp (d, start_tool) in
        subst (Reads live live t tools) (sym named)
          (tool_block-Reads (chat_index tc) t.drawn _ _ t tools e a)
  ]

  start_tool-known :
      (start_tool random_hex_id tc t).0.tool_blocks (chat_index tc) ≡ some t.block_index
  unfolding start_tool start_block
  start_tool-known = ground arith

module _ (random_hex_id : ℕ → Text) where
  tool_frames-Reads :
      (tc : ToolCall) (t : ChatToAnthropic) (tools : ℕ → Bool)
      → Agrees t tools
      → Reads live live t tools (tool_frames random_hex_id tc t)
  unfolding tool_frames
  tool_frames-Reads tc t tools a = elim (Option-cases (t.tool_blocks (chat_index tc))) [
    | inr (block, e) ↦
        let known : tool_frames random_hex_id tc t ≡ arguments_frames block tc.arguments t =
          simp (e, tool_frames) in
        subst (Reads live live t tools) (sym known)
          (arguments_frames-Reads block tc.arguments t tools (a.known (chat_index tc) block e) a)
    | inl e ↦
        let begin = followed (close_block t) (start_tool random_hex_id tc) in
        let new : tool_frames random_hex_id tc t
            ≡ followed begin (arguments_frames t.block_index tc.arguments) =
          simp (e, tool_frames) in
        let u = (close_block t).0 in
        subst (Reads live live t tools) (sym new) (
          followed-Reads live live live t tools begin (arguments_frames t.block_index tc.arguments)
            (followed-Reads live live live t tools (close_block t) (start_tool random_hex_id tc)
              (close_block-Reads t tools a)
              (λ tools' a'. start_tool-Reads random_hex_id tc u tools' (close_block-kept t).2 a'))
            (λ tools' a'.
              arguments_frames-Reads t.block_index tc.arguments begin.0 tools'
                (a'.known (chat_index tc) t.block_index
                  (start_tool-known random_hex_id tc u ∙ ap some (close_block-kept t).1))
                a'))
  ]

  tool_calls_frames-Reads :
      (tcs : List ToolCall) (t : ChatToAnthropic) (tools : ℕ → Bool)
      → Agrees t tools
      → Reads live live t tools (tool_calls_frames random_hex_id tcs t)
  unfolding tool_calls_frames
  tool_calls_frames-Reads [] t tools a = nothing-Reads live t tools a
  tool_calls_frames-Reads (tc ∷ tcs) t tools a =
      followed-Reads live live live t tools (tool_frames random_hex_id tc t)
        (tool_calls_frames random_hex_id tcs) (tool_frames-Reads tc t tools a)
        (λ tools' a'. tool_calls_frames-Reads tcs (tool_frames random_hex_id tc t).0 tools' a')

  -- The contents of a choice, in front of its finish reason.
  abbrev contents : Choice → ChatToAnthropic → Written
  contents x t =
      followed
        (followed (given x.content text_frames t) (given x.reasoning_content thinking_frames))
        (tool_calls_frames random_hex_id x.tool_calls)

  contents-Reads :
      (x : Choice) (t : ChatToAnthropic) (tools : ℕ → Bool)
      → Agrees t tools
      → Reads live live t tools (contents x t)
  contents-Reads x t tools a =
      let texts =
        followed (given x.content text_frames t) (given x.reasoning_content thinking_frames) in
      followed-Reads live live live t tools texts (tool_calls_frames random_hex_id x.tool_calls)
        (followed-Reads live live live t tools (given x.content text_frames t)
          (given x.reasoning_content thinking_frames)
          (given-Reads x.content text_frames t tools (λ s. text_frames-Reads s t tools a) a)
          (λ tools' a'.
            given-Reads x.reasoning_content thinking_frames (given x.content text_frames t).0 tools'
              (λ s. thinking_frames-Reads s (given x.content text_frames t).0 tools' a') a'))
        (λ tools' a'. tool_calls_frames-Reads x.tool_calls texts.0 tools' a')

-- Behind a chunk: the message goes on, or it has ended.
abbrev Goes : ChatToAnthropic → (ℕ → Bool) → Written → Type 0
Goes t tools (t', frames) =
    ((tools' : ℕ → Bool) × (read_all frames (reading live t tools) ≡ some (reading live t' tools'))
      × Agrees t' tools')
    ⊎ ((tools' : ℕ → Bool) × (read_all frames (reading live t tools)
          ≡ some (reading ended t' tools'))
        × (t'.finished ≡ true))

Goes-equal :
    (t : ChatToAnthropic) (tools : ℕ → Bool) (m m' : Written)
    → m' ≡ m
    → Goes t tools m
    → Goes t tools m'
Goes-equal t tools m m' e g = subst (Goes t tools) (sym e) g

followed-Goes :
    (t : ChatToAnthropic) (tools : ℕ → Bool) (m : Written) (next : ChatToAnthropic → Written)
    → Reads live live t tools m
    → ((tools' : ℕ → Bool) → Agrees m.0 tools' → Goes m.0 tools' (next m.0))
    → Goes t tools (followed m next)
followed-Goes t tools (t', frames) next (tools', h, a) more = elim (more tools' a) [
  | inl (tools'', h', a') ↦
      inl (tools'', read_all-append frames (next t').1 (reading live t tools) h ∙ h', a')
  | inr (tools'', h', f) ↦
      inr (tools'', read_all-append frames (next t').1 (reading live t tools) h ∙ h', f)
]

finish_frames-Goes :
    (c : ChatChunk) (r : Option Text) (t : ChatToAnthropic) (tools : ℕ → Bool)
    → Agrees t tools
    → Goes t tools (finish_frames c r t)
unfolding finish_frames
finish_frames-Goes c none t tools a = inl (nothing-Reads live t tools a)
finish_frames-Goes c (some reason) t tools a = inr (
  tools,
  close_frames-reading (chat_finish_to_anthropic reason) c.completion_tokens t tools a.placed,
  refl,
)

module _ (random_hex_id : ℕ → Text) where
  choice_frames-Goes :
      (c : ChatChunk) (x : Option Choice) (t : ChatToAnthropic) (tools : ℕ → Bool)
      → Agrees t tools
      → Goes t tools (choice_frames random_hex_id c x t)
  unfolding choice_frames
  choice_frames-Goes c none t tools a = inl (nothing-Reads live t tools a)
  choice_frames-Goes c (some x) t tools a =
      followed-Goes t tools (contents random_hex_id x t) (finish_frames c x.finish_reason)
        (contents-Reads random_hex_id x t tools a)
        (λ tools' a'. finish_frames-Goes c x.finish_reason (contents random_hex_id x t).0 tools' a')

  module _ (unmarshal : Text → Option ChatChunk) where
    -- A chunk within the message.
    feed_chunk-Goes :
        (t : ChatToAnthropic) (p : Text) (tools : ℕ → Bool)
        → Agrees t tools
        → Goes t tools (feed_chunk random_hex_id unmarshal t p)
    unfolding feed_chunk start_frames
    feed_chunk-Goes t p tools a = elim (Option-cases (unmarshal p)) [
      | inl bad ↦
          Goes-equal t tools (t, []) (feed_chunk random_hex_id unmarshal t p)
            (simp (a.unfinished, bad, feed_chunk)) (inl (nothing-Reads live t tools a))
      | inr (c, e) ↦
          let t' : ChatToAnthropic = record t {
            model = if eq_text t.model [] then c.model else t.model;
          } in
          Goes-equal t tools (choice_frames random_hex_id c c.choice t')
            (feed_chunk random_hex_id unmarshal t p) (ground (arith, e, a.unfinished, a.begun))
            (choice_frames-Goes c c.choice t' tools (record {
              known = a.known;
              begun = a.begun;
              unfinished = a.unfinished;
              placed = a.placed;
            }))
    ]

    translate-finished :
        (t : ChatToAnthropic) (ps : List Text)
        → t.finished ≡ true
        → translate random_hex_id unmarshal t ps ≡ []
    unfolding translate feed_chunk finish
    translate-finished t [] f =
        let shut : finish t ≡ (t, []) = simp (f, finish) in ap (λ m. m.1) shut
    translate-finished t (p ∷ ps) f =
        let shut : feed_chunk random_hex_id unmarshal t p ≡ (t, []) = simp (f, feed_chunk) in
        ap (λ m. m.1 ++ translate random_hex_id unmarshal m.0 ps) shut ∙ translate-finished t ps f

    -- From within the message the stream ends.
    abbrev Ends : List AnthropicFrame → Reading → Type 0
    Ends frames r = (r' : Reading) × (read_all frames r ≡ some r') × (r'.phase ≡ ended)

    Goes-Ends :
        (t : ChatToAnthropic) (tools : ℕ → Bool) (m : Written) (ps : List Text)
        → Goes t tools m
        → ((tools' : ℕ → Bool)
            → Agrees m.0 tools'
            → Ends (translate random_hex_id unmarshal m.0 ps) (reading live m.0 tools'))
        → Ends (m.1 ++ translate random_hex_id unmarshal m.0 ps) (reading live t tools)
    unfolding read_all
    Goes-Ends t tools (t', frames) ps (inl (tools', h, a)) more =
        let (r, h', e) = more tools' a in
        (r, read_all-append frames _ (reading live t tools) h ∙ h', e)
    Goes-Ends t tools (t', frames) ps (inr (tools', h, f)) more = (
      reading ended t' tools',
      read_all-append frames _ (reading live t tools) h
          ∙ ap (λ fs. read_all fs (reading ended t' tools')) (translate-finished t' ps f),
      refl,
    )

    translate-Ends :
        (t : ChatToAnthropic) (ps : List Text) (tools : ℕ → Bool)
        → Agrees t tools
        → Ends (translate random_hex_id unmarshal t ps) (reading live t tools)
    unfolding translate finish
    translate-Ends t [] tools a =
        let m = close_frames (codes "end_turn") none (record t { finished = true }) in
        let last : finish t ≡ m = simp (a.unfinished, finish) in
        (
          reading ended m.0 tools,
          ap (λ x. read_all x.1 (reading live t tools)) last
              ∙ close_frames-reading (codes "end_turn") none (record t { finished = true }) tools
                  a.placed,
          refl,
        )
    translate-Ends t (p ∷ ps) tools a =
        let m = feed_chunk random_hex_id unmarshal t p in
        Goes-Ends t tools m ps (feed_chunk-Goes t p tools a)
          (λ tools' a'. translate-Ends m.0 ps tools' a')

    translate_begins :
        (model : Text) (p : Text) (ps : List Text) (c : ChatChunk)
        → unmarshal p ≡ some c
        → Ends (translate random_hex_id unmarshal (new_chat_to_anthropic model) (p ∷ ps)) start
    unfolding translate feed_chunk start_frames read_all
    translate_begins model p ps c e =
        let t : ChatToAnthropic = record (new_chat_to_anthropic model) {
          model = if eq_text model [] then c.model else model;
          started = true;
        } in
        let a : Agrees t (λ i. false) = record {
          known = λ i b h. absurd (none-ne-some h);
          begun = refl;
          unfinished = refl;
          placed = λ h. absurd (ground (arith, h));
        } in
        let u = choice_frames random_hex_id c c.choice t in
        let first : feed_chunk random_hex_id unmarshal (new_chat_to_anthropic model) p
            ≡ (u.0, message_start t.model ∷ u.1) =
          simp (e, feed_chunk) in
        let (r, h, ended_) =
          Goes-Ends t (λ i. false) u ps (choice_frames-Goes c c.choice t (λ i. false) a)
            (λ tools' a'. translate-Ends u.0 ps tools' a') in
        (
          r,
          ap (λ m. read_all (m.1 ++ translate random_hex_id unmarshal m.0 ps) start) first ∙ h,
          ended_,
        )

-- Every stream that is translated, if its first chunk can be read, is a well-formed Anthropic stream: it
-- starts with message_start and ends with message_stop, once each; blocks are numbered in order and
-- only one is open; a delta of text or thinking is for the open block, of that kind, and
-- arguments are for a block that was started as a tool call.
pub anthropic_stream_reads :
    (random_hex_id : ℕ → Text) (unmarshal : Text → Option ChatChunk) (model p : Text)
    (ps : List Text) (c : ChatChunk)
    → unmarshal p ≡ some c
    → (r : Reading) × (read_all
          (translate random_hex_id unmarshal (new_chat_to_anthropic model) (p ∷ ps))
          start
        ≡ some r)
      × (r.phase ≡ ended)
anthropic_stream_reads random_hex_id unmarshal model p ps c e =
    translate_begins random_hex_id unmarshal model p ps c e
