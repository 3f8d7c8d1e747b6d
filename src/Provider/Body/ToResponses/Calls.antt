-- ===== src/Provider/Body/ToResponses/Calls.antt =====
-- The calls and the results of tools in the input that TranslateChatToResponses makes.
use pogu.Prelude.{
  ℕ, ◌+◌, ◌≡◌, refl, sym, ap, subst, ◌∙◌, List, [], ◌∷◌, ◌++◌, Option, none, some, true, false,
  ◌||◌, if◌then◌else◌, Text, codes, eq_text, trim_space, Bool-cases, inl, inr, append_assoc,
  append-nil, All, All-append, map, arith, eq_text_iff,
}
use pogu.Provider.Json.{Json, obj, Array, Object, of_fields, get, string_of}
use pogu.Provider.Body.Chat.{
  ChatToolCall, tool_calls_of, tool_calls_in, tool_call_of, object_of, array_of,
}
use pogu.Provider.Body.Blocks.{kind_of}
use pogu.Provider.Body.ToResponses.{
  content_parts, reasoning_input_item, function_calls, message_item, call_output, add_input,
  add_inputs,
}

-- The call ids of the items of a type, in their order.
abbrev pub ids_of : Text → Array → List Text
ids_of kind [] = []
ids_of kind (obj p ∷ items) =
    let m = of_fields p in
    if eq_text (kind_of m) kind
    then string_of (get (codes "call_id") m) ∷ ids_of kind items
    else ids_of kind items
ids_of kind (_ ∷ items) = ids_of kind items

abbrev pub role_of : Object → Text
role_of msg = string_of (get (codes "role") msg)

abbrev pub calls : Text
calls = codes "function_call"

abbrev pub results : Text
results = codes "function_call_output"

ids_of-append :
    (kind : Text) (xs ys : Array) → ids_of kind (xs ++ ys) ≡ ids_of kind xs ++ ids_of kind ys
ids_of-append kind [] ys = refl
ids_of-append kind (obj p ∷ xs) ys = ground (arith, ids_of-append kind xs ys)
ids_of-append kind (_ ∷ xs) ys = ids_of-append kind xs ys

ids_of-message_item :
    (role : Text) (parts : Array)
    → (ids_of calls (message_item role parts) ≡ [])
      × (ids_of results (message_item role parts) ≡ [])
unfolding eq_text
ids_of-message_item role [] = (refl, refl)
ids_of-message_item role (p ∷ ps) = (refl, refl)

ids_of-reasoning :
    (msg : Object)
    → (ids_of calls (reasoning_input_item msg) ≡ [])
      × (ids_of results (reasoning_input_item msg) ≡ [])
unfolding reasoning_input_item eq_text
ids_of-reasoning msg =
    elim (Bool-cases (eq_text (trim_space (string_of (get (codes "reasoning_content") msg))) [])) [
      | inl blank ↦ (rw blank, rw blank)
      | inr given ↦ (rw given, rw given)
    ]

abbrev Named : ChatToolCall → Type 0
Named tc = eq_text tc.name [] ≡ false

ids_of-function_calls :
    (tcs : List ChatToolCall)
    → All Named tcs
    → (ids_of calls (function_calls tcs) ≡ map (λ tc. tc.id) tcs)
      × (ids_of results (function_calls tcs) ≡ [])
unfolding eq_text
ids_of-function_calls [] h = (refl, refl)
ids_of-function_calls (tc ∷ tcs) (named, h) =
    let (c, r) = ids_of-function_calls tcs h in (rw (named, c), rw (named, r))

Named-call :
    (id name arguments : Text)
    → All Named (
        if eq_text name [] then [] else record { id = id; name = name; arguments = arguments } ∷ [])
unfolding eq_text
Named-call id [] arguments = tt
Named-call id (c ∷ name) arguments = (refl, tt)

tool_calls_in-Named :
    (random_hex_id : ℕ → Text) (n : ℕ) (items : Array)
    → All Named (tool_calls_in random_hex_id n items)
unfolding tool_calls_in tool_call_of
tool_calls_in-Named random_hex_id n [] = tt
tool_calls_in-Named random_hex_id n (obj item ∷ items) =
    All-append Named (tool_call_of random_hex_id n (obj item))
      (tool_calls_in random_hex_id (n + 1) items)
      (Named-call _
        (trim_space
          (string_of (get (codes "name") (object_of (get (codes "function") (of_fields item))))))
        _)
      (tool_calls_in-Named random_hex_id (n + 1) items)
tool_calls_in-Named random_hex_id n (_ ∷ items) = tool_calls_in-Named random_hex_id (n + 1) items

ids_of-with :
    (kind : Text) (input items : Array) {ids : List Text}
    → ids_of kind items ≡ ids
    → ids_of kind (input ++ items) ≡ ids_of kind input ++ ids
ids_of-with kind input items h = ids_of-append kind input items ∙ ap (λ x. ids_of kind input ++ x) h

-- A message's role decides all tests of the role.
role_test :
    (role known other : Text) → eq_text role known ≡ true → eq_text role other ≡ eq_text known other
role_test role known other h = ap (λ r. eq_text r other) ((eq_text_iff role known).0 h)

module _ (marshal : Json → Text) (random_hex_id : ℕ → ℕ → Text) where
  -- The ids of the calls that a message makes, and of the calls that it has the results of.
  abbrev pub made_calls : ℕ → Object → List Text
  made_calls m msg =
      if eq_text (role_of msg) (codes "assistant")
      then map (λ tc. tc.id) (tool_calls_of (random_hex_id m) msg)
      else []

  abbrev pub made_results : Object → List Text
  made_results msg =
      if eq_text (role_of msg) (codes "tool")
      then string_of (get (codes "tool_call_id") msg) ∷ []
      else []

  abbrev pub all_calls : ℕ → List Object → List Text
  all_calls m [] = []
  all_calls m (msg ∷ msgs) = made_calls m msg ++ all_calls (m + 1) msgs

  abbrev pub all_results : List Object → List Text
  all_results [] = []
  all_results (msg ∷ msgs) = made_results msg ++ all_results msgs

  abbrev Adds : ℕ → Object → Array → Array → Type 0
  Adds m msg input input' =
      (ids_of calls input' ≡ ids_of calls input ++ made_calls m msg)
      × (ids_of results input' ≡ ids_of results input ++ made_results msg)

  -- A message of another role adds no ids.
  unchanged :
      (m : ℕ) (msg : Object) (input : Array)
      → eq_text (role_of msg) (codes "assistant") ≡ false
      → eq_text (role_of msg) (codes "tool") ≡ false
      → Adds m msg input input
  unchanged m msg input no_assistant no_tool = (
    rw no_assistant (sym (append-nil (ids_of calls input))),
    rw no_tool (sym (append-nil (ids_of results input))),
  )

  with_items :
      (m : ℕ) (msg : Object) (input items : Array)
      → ids_of calls items ≡ made_calls m msg
      → ids_of results items ≡ made_results msg
      → Adds m msg input (input ++ items)
  with_items m msg input items c r =
      (ids_of-with calls input items c, ids_of-with results input items r)

  add_instructions :
      (m : ℕ) (msg : Object) (instructions : Option Text) (input : Array)
      → (eq_text (role_of msg) (codes "system") || eq_text (role_of msg) (codes "developer")) ≡ true
      → eq_text (role_of msg) (codes "assistant") ≡ false
      → eq_text (role_of msg) (codes "tool") ≡ false
      → Adds m msg input (add_input marshal random_hex_id m msg (instructions, input)).1
  unfolding add_input eq_text
  add_instructions m msg none input h no_assistant no_tool =
      rw h (unchanged m msg input no_assistant no_tool)
  add_instructions m msg (some given) input h no_assistant no_tool =
      rw h (with_items m msg input (_ ∷ []) (rw no_assistant) (rw no_tool))

  add_assistant :
      (m : ℕ) (msg : Object) (input parts : Array)
      → eq_text (role_of msg) (codes "assistant") ≡ true
      → eq_text (role_of msg) (codes "tool") ≡ false
      → Adds m msg input (
          input
          ++ (reasoning_input_item msg
              ++ (message_item (role_of msg) parts
                  ++ function_calls (tool_calls_of (random_hex_id m) msg))))
  unfolding tool_calls_of
  add_assistant m msg input parts is_assistant no_tool =
      let tcs = tool_calls_of (random_hex_id m) msg in
      let (c, r) =
        ids_of-function_calls tcs
          (tool_calls_in-Named (random_hex_id m) 0 (array_of (get (codes "tool_calls") msg))) in
      let (mc, mr) = ids_of-message_item (role_of msg) parts in
      let (rc, rr) = ids_of-reasoning msg in
      with_items m msg input _
        (ids_of-append calls (reasoning_input_item msg) _
          ∙ rw (
            rc,
            ids_of-append calls (message_item (role_of msg) parts) (function_calls tcs),
            mc,
            c,
            is_assistant,
          ))
        (ids_of-append results (reasoning_input_item msg) _
          ∙ rw (
            rr,
            ids_of-append results (message_item (role_of msg) parts) (function_calls tcs),
            mr,
            r,
            no_tool,
          ))

  assistant_eq :
      (m : ℕ) (msg : Object) (instructions : Option Text) (input : Array)
      → eq_text (role_of msg) (codes "system") ≡ false
      → eq_text (role_of msg) (codes "developer") ≡ false
      → eq_text (role_of msg) (codes "user") ≡ false
      → eq_text (role_of msg) (codes "assistant") ≡ true
      → (add_input marshal random_hex_id m msg (instructions, input)).1
        ≡ input
          ++ (reasoning_input_item msg
              ++ (message_item
                    (role_of msg)
                    (content_parts marshal (codes "output_text") (get (codes "content") msg))
                  ++ function_calls (tool_calls_of (random_hex_id m) msg)))
  unfolding add_input
  assistant_eq m msg instructions input a b c d = rw (a, b, c, d)

  tool_eq :
      (m : ℕ) (msg : Object) (instructions : Option Text) (input : Array)
      → eq_text (role_of msg) (codes "system") ≡ false
      → eq_text (role_of msg) (codes "developer") ≡ false
      → eq_text (role_of msg) (codes "user") ≡ false
      → eq_text (role_of msg) (codes "assistant") ≡ false
      → eq_text (role_of msg) (codes "tool") ≡ true
      → (add_input marshal random_hex_id m msg (instructions, input)).1
        ≡ input ++ call_output marshal random_hex_id msg ∷ []
  unfolding add_input
  tool_eq m msg instructions input a b c d e = rw (a, b, c, d, e)

  other_eq :
      (m : ℕ) (msg : Object) (instructions : Option Text) (input : Array)
      → eq_text (role_of msg) (codes "system") ≡ false
      → eq_text (role_of msg) (codes "developer") ≡ false
      → eq_text (role_of msg) (codes "user") ≡ false
      → eq_text (role_of msg) (codes "assistant") ≡ false
      → eq_text (role_of msg) (codes "tool") ≡ false
      → (add_input marshal random_hex_id m msg (instructions, input)).1 ≡ input
  unfolding add_input
  other_eq m msg instructions input a b c d e = rw (a, b, c, d, e)

  add_input-Adds :
      (m : ℕ) (msg : Object) (instructions : Option Text) (input : Array)
      → Adds m msg input (add_input marshal random_hex_id m msg (instructions, input)).1
  unfolding add_input eq_text
  add_input-Adds m msg instructions input =
      let role = role_of msg in
      elim (Bool-cases (eq_text role (codes "system"))) [
        | inl system ↦
            add_instructions m msg instructions input (rw system)
              (role_test role (codes "system") (codes "assistant") system)
              (role_test role (codes "system") (codes "tool") system)
        | inr no_system ↦ elim (Bool-cases (eq_text role (codes "developer"))) [
          | inl developer ↦
              add_instructions m msg instructions input (rw (no_system, developer))
                (role_test role (codes "developer") (codes "assistant") developer)
                (role_test role (codes "developer") (codes "tool") developer)
          | inr no_developer ↦ elim (Bool-cases (eq_text role (codes "user"))) [
            | inl is_user ↦
                let no_assistant = role_test role (codes "user") (codes "assistant") is_user in
                let no_tool = role_test role (codes "user") (codes "tool") is_user in
                let parts =
                  content_parts marshal (codes "input_text") (get (codes "content") msg) in
                let (c, r) = ids_of-message_item role parts in
                rw (no_system, no_developer, is_user)
                  (with_items m msg input (message_item role parts) (c ∙ rw no_assistant)
                    (r ∙ rw no_tool))
            | inr no_user ↦ elim (Bool-cases (eq_text role (codes "assistant"))) [
              | inl is_assistant ↦
                  subst (Adds m msg input)
                    (sym (
                      assistant_eq m msg instructions input no_system no_developer no_user
                        is_assistant))
                    (add_assistant m msg input
                      (content_parts marshal (codes "output_text") (get (codes "content") msg))
                      is_assistant (role_test role (codes "assistant") (codes "tool") is_assistant))
              | inr no_assistant ↦ elim (Bool-cases (eq_text role (codes "tool"))) [
                | inl is_tool ↦
                    subst (Adds m msg input)
                      (sym (
                        tool_eq m msg instructions input no_system no_developer no_user no_assistant
                          is_tool))
                      (with_items m msg input (call_output marshal random_hex_id msg ∷ [])
                        (rw no_assistant) (rw is_tool))
                | inr no_tool ↦
                    subst (Adds m msg input)
                      (sym (
                        other_eq m msg instructions input no_system no_developer no_user
                          no_assistant no_tool))
                      (unchanged m msg input no_assistant no_tool)
              ]
            ]
          ]
        ]
      ]

  -- The input has an item for each call of each assistant message and for the result of each tool message, with
  -- its call id, in the order of the messages, and no other such item.
  pub add_inputs-ids :
      (m : ℕ) (msgs : List Object) (instructions : Option Text) (input : Array)
      → (let (_, input') = add_inputs marshal random_hex_id m msgs (instructions, input) in
          (ids_of calls input' ≡ ids_of calls input ++ all_calls m msgs)
          × (ids_of results input' ≡ ids_of results input ++ all_results msgs))
  unfolding add_inputs
  add_inputs-ids m [] instructions input =
      (sym (append-nil (ids_of calls input)), sym (append-nil (ids_of results input)))
  add_inputs-ids m (msg ∷ msgs) instructions input =
      let (instructions', input') = add_input marshal random_hex_id m msg (instructions, input) in
      let (c, r) = add_input-Adds m msg instructions input in
      let (cs, rs) = add_inputs-ids (m + 1) msgs instructions' input' in
      (
        cs
            ∙ (ap (λ x. x ++ all_calls (m + 1) msgs) c
                ∙ append_assoc (ids_of calls input) (made_calls m msg) (all_calls (m + 1) msgs)),
        rs
            ∙ (ap (λ x. x ++ all_results msgs) r
                ∙ append_assoc (ids_of results input) (made_results msg) (all_results msgs)),
      )
