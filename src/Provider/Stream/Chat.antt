-- ===== src/Provider/Stream/Chat.antt =====
-- What AnthropicToChatTranslator and ResponsesToChatTranslator write: the frames of a stream of chat
-- completions. The id and the time of creation, which no frame changes, are left out.
use pogu.Prelude.{
  ℕ, ◌+◌, ◌^◌, ◌%◌, ◌≡◌, List, [], ◌∷◌, ◌++◌, Option, none, some, Bool, true, false, ◌==◌,
  if◌then◌else◌, Text, ap, sym, ◌∙◌, some-eq-some, none-ne-some, Option-cases, inl, inr,
}

-- The content of a delta; `tool_start` has the index, the call's id and the name, with no arguments.
pub data Content : Type 0 where
  text reasoning : Text → Content
  tool_start : ℕ → Text → Text → Content
  tool_arguments : ℕ → Text → Content

-- An int64 as its bit pattern.
abbrev pub int64_mod : ℕ
int64_mod = 2 ^ 64

-- prompt_tokens, completion_tokens, total_tokens
pub record ChatUsage : Type 0 where
  pub prompt_tokens : Option ℕ
  pub completion_tokens : Option ℕ
  pub total_tokens : Option ℕ

-- `chunk model role content finish_reason`: a chunk with a delta, in which "role" stands if `role` is
-- true. `final_chunk model finish_reason usage`: the chunk with an empty delta. `done`: the terminator of the stream.
pub data ChatFrame : Type 0 where
  chunk : Text → Bool → Content → Option Text → ChatFrame
  final_chunk : Text → Text → Option ChatUsage → ChatFrame
  done : ChatFrame

abbrev total_of : Option ℕ → Option ℕ → Option ℕ
total_of (some p) (some c) = some ((p + c) % int64_mod)
total_of none c = none
total_of (some p) none = none

-- The usage of finalChunk, where a count is known.
unfoldable pub chat_usage : Option ℕ → Option ℕ → Option ChatUsage
chat_usage none none = none
chat_usage (some p) c =
    some
      (record { prompt_tokens = some p; completion_tokens = c; total_tokens = total_of (some p) c })
chat_usage none (some c) =
    some (record { prompt_tokens = none; completion_tokens = some c; total_tokens = none })

abbrev pub set_flag : ℕ → (ℕ → Bool) → ℕ → Bool
set_flag i flags j = if i == j then true else flags j

-- A map from indices, `m[i] = v`.
abbrev pub set_index : ℕ → ℕ → (ℕ → Option ℕ) → ℕ → Option ℕ
set_index i v m j = if i == j then some v else m j

-- A reader of such streams: where it stands, and the tool calls that have been started.
pub data Phase : Type 0 where
  fresh open_ finishing closed : Phase

pub record Reading : Type 0 where
  pub phase : Phase
  pub tools : ℕ → Bool

abbrev pub no_tools : ℕ → Bool
no_tools i = false

abbrev pub start : Reading
start = record { phase = fresh; tools = no_tools }

-- The phase behind a chunk: the first chunk gives the role and no other does; the chunk that has a
-- finish reason is the last.
abbrev after_chunk : Bool → Option Text → Phase → Option Phase
after_chunk true none fresh = some open_
after_chunk false none open_ = some open_
after_chunk true (some reason) fresh = some finishing
after_chunk false (some reason) open_ = some finishing
after_chunk _ _ _ = none

abbrev after_final : Phase → Option Phase
after_final fresh = some finishing
after_final open_ = some finishing
after_final _ = none

abbrev after_done : Phase → Option Phase
after_done finishing = some closed
after_done _ = none

-- One frame, by its phase alone.
unfoldable pub phase_after : ChatFrame → Phase → Option Phase
phase_after (chunk m role content reason) p = after_chunk role reason p
phase_after (final_chunk m reason usage) p = after_final p
phase_after done p = after_done p

unfoldable pub read_phases : List ChatFrame → Phase → Option Phase
unfolding phase_after
read_phases [] p = some p
read_phases (f ∷ fs) p = elim (phase_after f p) [ none ↦ none | some p' ↦ read_phases fs p' ]

abbrev with_tools : (ℕ → Bool) → Option Phase → Option Reading
with_tools tools none = none
with_tools tools (some p) = some (record { phase = p; tools = tools })

-- One frame: by its phase, and arguments belong to a tool call that was started before.
unfoldable pub read : ChatFrame → Reading → Option Reading
unfolding phase_after
read (chunk m role (tool_arguments i args) reason) r =
    if r.tools i then with_tools r.tools (after_chunk role reason r.phase) else none
read (chunk m role (tool_start i id name) reason) r =
    with_tools (set_flag i r.tools) (after_chunk role reason r.phase)
read f r = with_tools r.tools (phase_after f r.phase)

unfoldable pub read_all : List ChatFrame → Reading → Option Reading
unfolding read
read_all [] r = some r
read_all (f ∷ fs) r = elim (read f r) [ none ↦ none | some r' ↦ read_all fs r' ]

pub read_all-append :
    (fs gs : List ChatFrame) (r : Reading) {r' : Reading}
    → read_all fs r ≡ some r'
    → read_all (fs ++ gs) r ≡ read_all gs r'
unfolding read_all
read_all-append [] gs r h = ap (read_all gs) (some-eq-some h)
read_all-append (f ∷ fs) gs r {r'} h = elim (Option-cases (read f r)) [
  | inl e ↦ absurd (none-ne-some (sym (rw (e, read_all)) ∙ h))
  | inr (q, e) ↦ rw (e, read_all) (read_all-append fs gs q (rw (e, read_all) at h))
]

pub read_phases-append :
    (fs gs : List ChatFrame) (p : Phase) {p' : Phase}
    → read_phases fs p ≡ some p'
    → read_phases (fs ++ gs) p ≡ read_phases gs p'
unfolding read_phases
read_phases-append [] gs p h = ap (read_phases gs) (some-eq-some h)
read_phases-append (f ∷ fs) gs p {p'} h = elim (Option-cases (phase_after f p)) [
  | inl e ↦ absurd (none-ne-some (sym (rw (e, read_phases)) ∙ h))
  | inr (q, e) ↦ rw (e, read_phases) (read_phases-append fs gs q (rw (e, read_phases) at h))
]
