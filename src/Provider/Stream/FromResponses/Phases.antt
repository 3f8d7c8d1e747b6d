-- ===== src/Provider/Stream/FromResponses/Phases.antt =====
-- The streams that ResponsesToChatTranslator writes, against the phases of Chat.
use pogu.Prelude.{
  ℕ, ◌≡◌, refl, sym, ap, subst, ◌∙◌, List, [], ◌∷◌, Option, none, some, true, false, if◌then◌else◌,
  Text, arith, Bool-cases, inl, inr, Option-cases,
}
use pogu.Provider.Stream.Chat.{
  ChatFrame, Content, text, reasoning, Phase, fresh, open_, closed, read_phases, read_phases-append,
}
use pogu.Provider.Stream.FromResponses.{
  ResponsesEvent, Item, Response, ResponsesToChat, new_responses_to_chat, EventKind, text_delta,
  item_added, arguments_delta, item_done, completed, failed, reasoning_delta, other, event_kind,
  emit, emit_text, terminal, finish, place_item, or_text, emit_arguments, on_arguments,
  done_arguments, on_item_added, on_item_done, with_counts, usage_pair, on_completed, with_model,
  on_failed, on_event, feed_event, translate,
}

-- Where the reader stands behind a translator's frames.
abbrev phase_of : ResponsesToChat → Phase
phase_of t = if t.finished then closed else if t.role_sent then open_ else fresh

abbrev Reads : ResponsesToChat → ResponsesToChat × List ChatFrame → Type 0
Reads t (t', frames) = read_phases frames (phase_of t) ≡ some (phase_of t')

terminal-Reads : (t : ResponsesToChat) → t.finished ≡ false → Reads t (terminal t)
unfolding terminal read_phases
terminal-Reads t h = ground (arith, h)

emit-Reads : (t : ResponsesToChat) (c : Content) → t.finished ≡ false → Reads t (emit t c none)
unfolding emit read_phases
emit-Reads t c h = ground (arith, h)

emit_text-Reads :
    (t : ResponsesToChat) (c : Text → Content) (s : Text)
    → t.finished ≡ false
    → Reads t (emit_text t c s)
unfolding emit_text emit read_phases
emit_text-Reads t c s h = ground (arith, h)

emit_arguments-Reads :
    (t : ResponsesToChat) (idx : ℕ) (args : Text)
    → t.finished ≡ false
    → Reads t (emit_arguments t idx args)
unfolding emit_arguments emit read_phases
emit_arguments-Reads t idx args h = ground (arith, h)

on_arguments-Reads :
    (t : ResponsesToChat) (evt : ResponsesEvent) → t.finished ≡ false → Reads t (on_arguments t evt)
unfolding on_arguments emit_arguments emit read_phases
on_arguments-Reads t evt h = ground (arith, h)

on_item_done-Reads :
    (t : ResponsesToChat) (evt : ResponsesEvent) (i : Option Item)
    → t.finished ≡ false
    → Reads t (on_item_done t evt i)
unfolding on_item_done done_arguments emit_arguments emit read_phases
on_item_done-Reads t evt none h = refl
on_item_done-Reads t evt (some i) h = ground (arith, h)

with_counts-kept :
    (t : ResponsesToChat) (c : Option ℕ × Option ℕ)
    → (phase_of (with_counts t c) ≡ phase_of t) × ((with_counts t c).finished ≡ t.finished)
with_counts-kept t (none, none) = (refl, refl)
with_counts-kept t (some input, output) = (refl, refl)
with_counts-kept t (none, some output) = (refl, refl)

on_completed-Reads :
    (t : ResponsesToChat) (evt : ResponsesEvent) → t.finished ≡ false → Reads t (on_completed t evt)
unfolding on_completed
on_completed-Reads t evt h =
    let t' : ResponsesToChat = with_counts t (usage_pair evt.response) in
    let (same, open_too) = with_counts-kept t (usage_pair evt.response) in
    subst (λ p. read_phases (terminal t').1 p ≡ some (phase_of (terminal t').0)) same
      (terminal-Reads t' (open_too ∙ h))

place_item-kept :
    (t : ResponsesToChat) (key : Text)
    → ((place_item t key).1.role_sent ≡ t.role_sent) × ((place_item t key).1.finished ≡ t.finished)
unfolding place_item
place_item-kept t key = ground arith

with_model-kept :
    (t : ResponsesToChat) (r : Option Response)
    → (phase_of (with_model t r) ≡ phase_of t) × ((with_model t r).finished ≡ t.finished)
unfolding with_model
with_model-kept t none = (refl, refl)
with_model-kept t (some r) = (refl, refl)

finish-Reads : (t : ResponsesToChat) → Reads t (finish t)
unfolding finish read_phases
finish-Reads t = elim (Bool-cases t.finished) [
  | inl f ↦ let shut : finish t ≡ (t, []) = simp (f, finish) in subst (Reads t) (sym shut) refl
  | inr f ↦
      let open_too : finish t ≡ terminal t = simp (f, finish) in
      subst (Reads t) (sym open_too) (terminal-Reads t f)
]

finish-finished : (t : ResponsesToChat) → (finish t).0.finished ≡ true
unfolding finish terminal
finish-finished t = ground arith

module _ (random_hex_id : ℕ → Text) where
  on_item_added-Reads :
      (t : ResponsesToChat) (evt : ResponsesEvent) (i : Option Item)
      → t.finished ≡ false
      → Reads t (on_item_added random_hex_id t evt i)
  unfolding on_item_added emit read_phases
  on_item_added-Reads t evt none h = refl
  on_item_added-Reads t evt (some i) h =
      ground (arith, h, place_item-kept t (or_text (or_text i.id evt.item_id) i.call_id))

  module _ (marshal : ResponsesEvent → Text) where
    on_failed-Reads :
        (t : ResponsesToChat) (evt : ResponsesEvent)
        → t.finished ≡ false
        → Reads t (on_failed random_hex_id marshal t evt)
    unfolding on_failed emit read_phases
    on_failed-Reads t evt h = ground (arith, h)

    on_event-Reads :
        (k : EventKind) (t : ResponsesToChat) (evt : ResponsesEvent)
        → t.finished ≡ false
        → Reads t (on_event random_hex_id marshal k t evt)
    unfolding on_event read_phases
    on_event-Reads text_delta t evt h = emit_text-Reads t text evt.delta h
    on_event-Reads item_added t evt h = on_item_added-Reads t evt evt.item h
    on_event-Reads arguments_delta t evt h = on_arguments-Reads t evt h
    on_event-Reads item_done t evt h = on_item_done-Reads t evt evt.item h
    on_event-Reads completed t evt h = on_completed-Reads t evt h
    on_event-Reads failed t evt h = on_failed-Reads t evt h
    on_event-Reads reasoning_delta t evt h = emit_text-Reads t reasoning evt.delta h
    on_event-Reads other t evt h = refl

    module _ (unmarshal : Text → Option ResponsesEvent) where
      feed_event-Reads :
          (t : ResponsesToChat) (e : Text × Text)
          → Reads t (feed_event random_hex_id marshal unmarshal t e)
      unfolding feed_event read_phases
      feed_event-Reads t (event, payload) = elim (Bool-cases t.finished) [
        | inl f ↦ simp (f, feed_event) refl
        | inr f ↦ elim (Option-cases (unmarshal payload)) [
          | inl bad ↦ simp (f, bad, feed_event) refl
          | inr (evt, e) ↦
              let t' = with_model t evt.response in
              let (same, open_too) = with_model-kept t evt.response in
              let kind = event_kind (or_text evt.type event) in
              let after = on_event random_hex_id marshal kind t' evt in
              let runs : feed_event random_hex_id marshal unmarshal t (event, payload) ≡ after =
                simp (f, e, feed_event) in
              subst (Reads t) (sym runs) (
                subst (λ p. read_phases after.1 p ≡ some (phase_of after.0)) same
                  (on_event-Reads kind t' evt (open_too ∙ f)))
        ]
      ]

      translate-Reads :
          (t : ResponsesToChat) (es : List (Text × Text))
          → (t' : ResponsesToChat) × (t'.finished ≡ true)
            × (read_phases (translate random_hex_id marshal unmarshal t es) (phase_of t)
                ≡ some (phase_of t'))
      unfolding translate
      translate-Reads t [] = ((finish t).0, finish-finished t, finish-Reads t)
      translate-Reads t (e ∷ es) =
          let (t', ended, h) =
            translate-Reads (feed_event random_hex_id marshal unmarshal t e).0 es in
          (t', ended, read_phases-append _ _ (phase_of t) (feed_event-Reads t e) ∙ h)

-- Every stream that is translated, whatever its events, is in phase as a stream of chat completions: the
-- role stands in the first chunk with a delta and in no other, and the terminator is the last frame,
-- once, behind the one frame with a finish reason.
pub translate_phases :
    (random_hex_id : ℕ → Text) (marshal : ResponsesEvent → Text)
    (unmarshal : Text → Option ResponsesEvent) (model : Text) (es : List (Text × Text))
    → read_phases (translate random_hex_id marshal unmarshal (new_responses_to_chat model) es) fresh
      ≡ some closed
translate_phases random_hex_id marshal unmarshal model es =
    let (t', ended, h) =
      translate-Reads random_hex_id marshal unmarshal (new_responses_to_chat model) es in
    h ∙ ap (λ f. some (if f then closed else if t'.role_sent then open_ else fresh)) ended
