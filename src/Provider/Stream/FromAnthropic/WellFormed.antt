-- ===== src/Provider/Stream/FromAnthropic/WellFormed.antt =====
-- The streams that AnthropicToChatTranslator writes, against the reader of Chat.
use pogu.Prelude.{
  subst, sym, ℕ, ◌≡◌, refl, ap, ◌∙◌, List, [], ◌∷◌, Option, none, some, Bool, true, false,
  if◌then◌else◌, Text, arith, Bool-cases, inl, inr, Option-cases, eq_text, codes,
}
use pogu.Provider.Stream.Chat.{
  ChatFrame, text, tool_start, set_flag, Phase, fresh, open_, closed, Reading, start, read_all,
  read_all-append,
}
use pogu.Provider.Stream.FromAnthropic.{
  AnthropicEvent, EventMessage, ContentBlock, EventDelta, AnthropicToChat, new_anthropic_to_chat,
  EventKind, message_start, content_block_start, content_block_delta, message_delta, message_stop,
  error_, other, event_kind, emit, terminal, finish, on_message_start, place_tool, call_id,
  on_tool_start, on_block_start, tool_of, on_arguments, on_delta, with_stop, with_usage,
  on_message_delta, on_error, on_event, feed_event, translate,
}

abbrev phase_of : AnthropicToChat → Phase
phase_of t = if t.finished then closed else if t.role_sent then open_ else fresh

-- Where the reader stands behind a translator's frames.
abbrev reading_of : AnthropicToChat → Reading
reading_of t = record { phase = phase_of t; tools = t.tool_started }

abbrev Reads : AnthropicToChat → AnthropicToChat × List ChatFrame → Type 0
Reads t (t', frames) = read_all frames (reading_of t) ≡ some (reading_of t')

terminal-Reads : (t : AnthropicToChat) → t.finished ≡ false → Reads t (terminal t)
unfolding terminal read_all
terminal-Reads t h = ground (arith, h)

emit_text-Reads :
    (t : AnthropicToChat) (s : Text) → t.finished ≡ false → Reads t (emit t (text s) none)
unfolding emit read_all
emit_text-Reads t s h = ground (arith, h)

emit_start-Reads :
    (t : AnthropicToChat) (idx : ℕ) (id name : Text)
    → t.finished ≡ false
    → read_all (emit t (tool_start idx id name) none).1 (reading_of t)
      ≡ some (record { phase = open_; tools = set_flag idx t.tool_started })
unfolding emit read_all
emit_start-Reads t idx id name h = ground (arith, h)

on_arguments-Reads :
    (random_hex_id : ℕ → Text) (t : AnthropicToChat) (idx : ℕ) (args : Text)
    → t.finished ≡ false
    → Reads t (on_arguments random_hex_id t idx args)
unfolding on_arguments emit read_all
on_arguments-Reads random_hex_id t idx args h = ground (arith, h)

place_tool-kept :
    (t : AnthropicToChat) (block : Option ℕ) → reading_of (place_tool t block).1 ≡ reading_of t
unfolding place_tool
place_tool-kept t none = refl
place_tool-kept t (some b) = ground arith

place_tool-finished :
    (t : AnthropicToChat) (block : Option ℕ) → (place_tool t block).1.finished ≡ t.finished
unfolding place_tool
place_tool-finished t none = refl
place_tool-finished t (some b) = ground arith

module _ (random_hex_id : ℕ → Text) where
  on_tool_start-Reads :
      (t : AnthropicToChat) (block : Option ℕ) (b : ContentBlock)
      → t.finished ≡ false
      → Reads t (on_tool_start random_hex_id t block b)
  unfolding on_tool_start place_tool call_id emit read_all
  on_tool_start-Reads t none b h = ground (arith, h)
  on_tool_start-Reads t (some block) b h = ground (arith, h)

  on_block_start-Reads :
      (t : AnthropicToChat) (block : Option ℕ) (b : Option ContentBlock)
      → t.finished ≡ false
      → Reads t (on_block_start random_hex_id t block b)
  unfolding on_block_start read_all
  on_block_start-Reads t block none h = refl
  on_block_start-Reads t block (some b) h = elim (Bool-cases (eq_text b.type (codes "tool_use"))) [
    | inl e ↦ rw (e, on_block_start) (on_tool_start-Reads t block b h)
    | inr e ↦ rw (e, on_block_start) refl
  ]

  on_delta-Reads :
      (t : AnthropicToChat) (block : Option ℕ) (d : Option EventDelta)
      → t.finished ≡ false
      → Reads t (on_delta random_hex_id t block d)
  unfolding on_delta read_all
  on_delta-Reads t block none h = refl
  on_delta-Reads t block (some d) h = elim (Bool-cases (eq_text d.type (codes "text_delta"))) [
    | inl e ↦ elim (Bool-cases (eq_text d.text [])) [
      | inl empty ↦ rw (e, empty, on_delta) refl
      | inr full ↦ rw (e, full, on_delta) (emit_text-Reads t d.text h)
    ]
    | inr e ↦ elim (Bool-cases (eq_text d.type (codes "input_json_delta"))) [
      | inr o ↦ rw (e, o, on_delta) refl
      | inl i ↦ elim (Bool-cases (eq_text d.partial_json [])) [
        | inl empty ↦ rw (e, i, empty, on_delta) refl
        | inr full ↦
            rw (e, i, full, on_delta)
              (on_arguments-Reads random_hex_id t (tool_of t block) d.partial_json h)
      ]
    ]
  ]

  with_stop-kept :
      (d : Option EventDelta) (u : Option (Option ℕ)) (t : AnthropicToChat)
      → (reading_of (with_stop d (with_usage u t)) ≡ reading_of t)
        × ((with_stop d (with_usage u t)).finished ≡ t.finished)
  with_stop-kept none none t = (refl, refl)
  with_stop-kept none (some o) t = (refl, refl)
  with_stop-kept (some d) none t = ground arith
  with_stop-kept (some d) (some o) t = ground arith

  on_message_delta-Reads :
      (t : AnthropicToChat) (evt : AnthropicEvent)
      → t.finished ≡ false
      → Reads t (on_message_delta t evt)
  unfolding on_message_delta
  on_message_delta-Reads t evt h =
      let t' : AnthropicToChat = with_stop evt.delta (with_usage evt.usage t) in
      let (same, open_too) = with_stop-kept evt.delta evt.usage t in
      subst (λ r. read_all (terminal t').1 r ≡ some (reading_of (terminal t').0)) same
        (terminal-Reads t' (open_too ∙ h))

  on_error-Reads :
      (t : AnthropicToChat) (evt : AnthropicEvent) (payload : Text)
      → t.finished ≡ false
      → Reads t (on_error t evt payload)
  unfolding on_error emit read_all
  on_error-Reads t evt payload h = ground (arith, h)

  on_message_start-Reads :
      (t : AnthropicToChat) (m : Option EventMessage) → Reads t (on_message_start t m, [])
  unfolding on_message_start read_all
  on_message_start-Reads t none = refl
  on_message_start-Reads t (some m) = refl

  finish-Reads : (t : AnthropicToChat) → Reads t (finish t)
  unfolding finish read_all
  finish-Reads t = elim (Bool-cases t.finished) [
    | inl f ↦ let shut : finish t ≡ (t, []) = simp (f, finish) in subst (Reads t) (sym shut) refl
    | inr f ↦
        let open_too : finish t ≡ terminal t = simp (f, finish) in
        subst (Reads t) (sym open_too) (terminal-Reads t f)
  ]

  finish-finished : (t : AnthropicToChat) → (finish t).0.finished ≡ true
  unfolding finish terminal
  finish-finished t = ground arith

  on_event-Reads :
      (k : EventKind) (t : AnthropicToChat) (evt : AnthropicEvent) (payload : Text)
      → t.finished ≡ false
      → Reads t (on_event random_hex_id k t evt payload)
  unfolding on_event read_all
  on_event-Reads message_start t evt payload h = on_message_start-Reads t evt.message
  on_event-Reads content_block_start t evt payload h =
      on_block_start-Reads t evt.index evt.content_block h
  on_event-Reads content_block_delta t evt payload h = on_delta-Reads t evt.index evt.delta h
  on_event-Reads message_delta t evt payload h = on_message_delta-Reads t evt h
  on_event-Reads message_stop t evt payload h = finish-Reads t
  on_event-Reads error_ t evt payload h = on_error-Reads t evt payload h
  on_event-Reads other t evt payload h = refl

  module _ (unmarshal : Text → Option AnthropicEvent) where
    feed_event-Reads :
        (t : AnthropicToChat) (e : Text × Text) → Reads t (feed_event random_hex_id unmarshal t e)
    unfolding feed_event read_all
    feed_event-Reads t (event, payload) = elim (Bool-cases t.finished) [
      | inl f ↦ simp (f, feed_event) refl
      | inr f ↦ elim (Option-cases (unmarshal payload)) [
        | inl bad ↦ simp (f, bad, feed_event) refl
        | inr (evt, e) ↦
            let kind = event_kind (if eq_text evt.type [] then event else evt.type) in
            let runs : feed_event random_hex_id unmarshal t (event, payload)
                ≡ on_event random_hex_id kind t evt payload =
              simp (f, e, feed_event) in
            subst (Reads t) (sym runs) (on_event-Reads kind t evt payload f)
      ]
    ]

    translate-Reads :
        (t : AnthropicToChat) (es : List (Text × Text))
        → (t' : AnthropicToChat) × (t'.finished ≡ true)
          × (read_all (translate random_hex_id unmarshal t es) (reading_of t)
              ≡ some (reading_of t'))
    unfolding translate
    translate-Reads t [] = ((finish t).0, finish-finished t, finish-Reads t)
    translate-Reads t (e ∷ es) =
        let (t', ended, h) = translate-Reads (feed_event random_hex_id unmarshal t e).0 es in
        (t', ended, read_all-append _ _ (reading_of t) (feed_event-Reads t e) ∙ h)

-- Every stream that is translated, whatever its events, is a well-formed stream of chat completions: the
-- role stands in the first chunk with a delta and in no other, the arguments of a tool call come
-- behind its start, and the terminator is the last frame, once, behind the one frame with a finish reason.
pub chat_stream_reads :
    (random_hex_id : ℕ → Text) (unmarshal : Text → Option AnthropicEvent) (model : Text)
    (es : List (Text × Text))
    → (tools : ℕ → Bool) × (read_all
          (translate random_hex_id unmarshal (new_anthropic_to_chat model) es)
          start
        ≡ some (record { phase = closed; tools = tools }))
chat_stream_reads random_hex_id unmarshal model es =
    let (t', ended, h) = translate-Reads random_hex_id unmarshal (new_anthropic_to_chat model) es in
    (
      t'.tool_started,
      h
          ∙ ap
              (λ f. some (record {
                phase = if f then closed else if t'.role_sent then open_ else fresh;
                tools = t'.tool_started;
              }))
              ended,
    )
