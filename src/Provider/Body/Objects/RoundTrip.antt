-- ===== src/Provider/Body/Objects/RoundTrip.antt =====
-- A chat completion made an Anthropic message, and read back.
use pogu.Prelude.{
  ◌≡◌, refl, sym, ap, ◌∙◌, List, [], ◌∷◌, ◌++◌, Option, none, some, false, if◌then◌else◌, Text,
  codes, eq_text, Bool-cases, inl, inr, map, arith, append_assoc, append-nil, All,
}
use pogu.Provider.Json.{Json, Array, Object, str, null, list, object, at, text, is_nil}
use pogu.Provider.Body.Chat.{unless_empty, message_text}
use pogu.Provider.Body.Blocks.{tool_arguments, text_blocks}
use pogu.Provider.Body.ToChat.{objects_in, call_json}
use pogu.Provider.Body.Objects.{
  Said, nothing_said, say, say_all, message_of, finish_of, CompletionCall, CompletionChoice,
  completion_content, completion_stop, completion_call_block,
}

-- A call with the id, the name and the arguments of another.
abbrev pub same_call : (Json → Text) → CompletionCall → Json
same_call marshal tc = call_json marshal tc.id tc.name tc.arguments

-- The message that is read back has the text and the calls of the completion, in their order.
abbrev pub completion_message : Text → Array → Object
completion_message t [] = at "role" (text "assistant") ∷ at "content" (str t) ∷ []
completion_message t (c ∷ cs) =
    at "role" (text "assistant")
    ∷ at "content" (if eq_text t [] then null else str t)
    ∷ at "tool_calls" (list (c ∷ cs))
    ∷ []

-- The finish reason that is read back.
abbrev pub kept_finish : Option Text → Array → Text
kept_finish reason (c ∷ cs) = codes "tool_calls"
kept_finish none [] = codes "stop"
kept_finish (some reason) [] =
    if eq_text reason (codes "length")
    then codes "length"
    else if eq_text reason (codes "tool_calls")
    then codes "tool_calls"
    else codes "stop"

module _ (marshal : Json → Text) (unmarshal : Text → Option Json) where
  -- The arguments are the text of a JSON object, as json.Marshal writes it.
  abbrev pub IsCanonical : CompletionCall → Type 0
  IsCanonical tc = marshal (tool_arguments unmarshal tc.arguments) ≡ tc.arguments

  is_nil-tool_arguments : (args : Text) → is_nil (tool_arguments unmarshal args) ≡ false
  unfolding tool_arguments
  is_nil-tool_arguments args = elim (Bool-cases (eq_text args [])) [
    | inl blank ↦ rw blank
    | inr given ↦ ground (arith, given)
  ]

  say-call :
      (tc : CompletionCall) (s : Said)
      → IsCanonical tc
      → say marshal (completion_call_block unmarshal tc) s
        ≡ record s { tool_calls = s.tool_calls ++ same_call marshal tc ∷ [] }
  unfolding say eq_text
  say-call tc s h = rw (is_nil-tool_arguments tc.arguments, h)

  say_all-calls :
      (tcs : List CompletionCall) (s : Said)
      → All IsCanonical tcs
      → say_all marshal (objects_in (map (λ tc. object (completion_call_block unmarshal tc)) tcs)) s
        ≡ record s { tool_calls = s.tool_calls ++ map (same_call marshal) tcs }
  unfolding say_all
  say_all-calls [] s h = ap (λ x. record s { tool_calls = x }) (sym (append-nil s.tool_calls))
  say_all-calls (tc ∷ tcs) s h =
      let added =
        say_all-calls tcs (record s { tool_calls = s.tool_calls ++ same_call marshal tc ∷ [] })
          h.1 in
      ap (say_all marshal (objects_in (map (λ x. object (completion_call_block unmarshal x)) tcs)))
        (say-call tc s h.0)
      ∙ (added
          ∙ ap (λ x. record s { tool_calls = x })
              (append_assoc s.tool_calls (same_call marshal tc ∷ []) (map (same_call marshal) tcs)))

  say_all-content :
      (t : Text) (calls : List CompletionCall)
      → All IsCanonical calls
      → say_all marshal
          (objects_in
            (text_blocks t ++ map (λ tc. object (completion_call_block unmarshal tc)) calls))
          nothing_said
        ≡ record {
          texts = unless_empty t;
          reasoning = [];
          tool_calls = map (same_call marshal) calls;
        }
  unfolding say_all say eq_text
  say_all-content [] calls h = say_all-calls calls nothing_said h
  say_all-content (c ∷ t) calls h =
      say_all-calls calls (record nothing_said { texts = (c ∷ t) ∷ [] }) h

message_of-said :
    (t : Text) (calls : Array)
    → message_of (record { texts = unless_empty t; reasoning = []; tool_calls = calls })
      ≡ completion_message t calls
unfolding eq_text
message_of-said [] [] = refl
message_of-said [] (j ∷ js) = refl
message_of-said (c ∷ t) [] = refl
message_of-said (c ∷ t) (j ∷ js) = refl

finish_of-completion_stop :
    (reason : Option Text) (calls : Array)
    → finish_of (some (completion_stop reason)) calls ≡ kept_finish reason calls
unfolding completion_stop eq_text
finish_of-completion_stop reason (c ∷ cs) = refl
finish_of-completion_stop none [] = refl
finish_of-completion_stop (some reason) [] = elim (Bool-cases (eq_text reason (codes "length"))) [
  | inl cut_short ↦ rw cut_short
  | inr other ↦ elim (Bool-cases (eq_text reason (codes "tool_calls"))) [
    | inl calls ↦ rw (other, calls)
    | inr no_calls ↦ elim (Bool-cases (eq_text reason (codes "content_filter"))) [
      | inl filtered ↦ rw (other, no_calls, filtered)
      | inr unknown ↦ rw (other, no_calls, unknown)
    ]
  ]
]

-- Where the arguments of the calls are canonical texts of JSON objects, the message that is read back from
-- the content that a completion is translated to has the completion's text and its calls, in their order,
-- and the finish reason is tool_calls where there are calls, and without them what it was where it was
-- stop or length.
pub say_all-completion_content :
    (marshal : Json → Text) (unmarshal : Text → Option Json) (choice : CompletionChoice)
    → All (IsCanonical marshal unmarshal) choice.tool_calls
    → (let said = say_all marshal (objects_in (completion_content unmarshal choice)) nothing_said in
        (message_of said
          ≡ completion_message
              (message_text choice.content)
              (map (same_call marshal) choice.tool_calls))
        × (finish_of (some (completion_stop choice.finish_reason)) said.tool_calls
            ≡ kept_finish choice.finish_reason (map (same_call marshal) choice.tool_calls)))
unfolding completion_content
say_all-completion_content marshal unmarshal choice h =
    let e = say_all-content marshal unmarshal (message_text choice.content) choice.tool_calls h in
    (
      ap message_of e
          ∙ message_of-said (message_text choice.content)
              (map (same_call marshal) choice.tool_calls),
      ap (λ x. finish_of (some (completion_stop choice.finish_reason)) x.tool_calls) e
          ∙ finish_of-completion_stop choice.finish_reason
              (map (same_call marshal) choice.tool_calls),
    )
