-- ===== src/Provider/Body/ToAnthropic/Turns.antt =====
-- The messages of the requests that TranslateChatToAnthropic makes.
use pogu.Prelude.{
  ℕ, ◌+◌, ◌≡◌, ◌≢◌, ◌⊎◌, inl, inr, refl, List, [], ◌∷◌, ◌++◌, Option, none, some, Bool, false, ◌||◌,
  if◌then◌else◌, Text, codes, eq_text, eq_text_iff, Bool-cases, map, arith, some-eq-some,
}
use pogu.Provider.Effort.{Effort, none_}
use pogu.Provider.Json.{Json, Array, Object, list, get, string_of}
use pogu.Provider.Json.Laws.{get-put}
use pogu.Provider.Body.Chat.{ChatRequest}
use pogu.Provider.Body.ToAnthropic.{
  Turn, add_turn, flush, user, assistant, spoken_blocks, tool_result_block, add_message,
  add_messages, turn_json, set_if, set_thinking, chat_to_anthropic,
}

-- A message of the user or the assistant that says something.
abbrev pub Speaks : Turn → Type 0
Speaks t = ((t.role ≡ user) ⊎ (t.role ≡ assistant)) × (t.content ≢ [])

-- Messages that speak in turns, behind a message of the role `last`.
abbrev pub Follow : Option Text → List Turn → Type 0
Follow last [] = Unit
Follow last (t ∷ ts) = Speaks t × (last ≢ some t.role) × Follow (some t.role) ts

append-ne-nil {ℓ} : {A : Type ℓ} (xs ys : List A) → ys ≢ [] → xs ++ ys ≢ []
append-ne-nil [] ys h e = h e
append-ne-nil (x ∷ xs) ys h e = cc

apart : (role other : Text) → eq_text role other ≡ false → some role ≢ some other
apart role other h e = ground (arith, h, (eq_text_iff role other).1 (some-eq-some e))

add_turn_first :
    (role : Text) (blocks : Array) (t : Turn) (last : Option Text)
    → (role ≡ user) ⊎ (role ≡ assistant)
    → blocks ≢ []
    → Follow last (t ∷ [])
    → Follow last (add_turn role blocks (t ∷ []))
unfolding add_turn
add_turn_first role blocks t last known some_blocks (speaks, fresh, _) =
    elim (Bool-cases (eq_text t.role role)) [
      | inl same ↦ rw same (((speaks.0, append-ne-nil t.content blocks some_blocks), fresh, tt))
      | inr differ ↦
          rw differ ((speaks, fresh, ((known, some_blocks), apart t.role role differ, tt)))
    ]

add_turn_later :
    (role : Text) (blocks : Array) (t : Turn) (ts : List Turn) (last : Option Text)
    → (role ≡ user) ⊎ (role ≡ assistant)
    → blocks ≢ []
    → Follow last (t ∷ ts)
    → Follow last (add_turn role blocks (t ∷ ts))
unfolding add_turn
add_turn_later role blocks t [] last known some_blocks h =
    add_turn_first role blocks t last known some_blocks h
add_turn_later role blocks t (u ∷ ts) last known some_blocks (speaks, fresh, rest) =
    (speaks, fresh, add_turn_later role blocks u ts (some t.role) known some_blocks rest)

flush-Follow :
    (role : Text) (blocks : Array) (turns : List Turn)
    → (role ≡ user) ⊎ (role ≡ assistant)
    → Follow none turns
    → Follow none (flush role blocks turns)
unfolding flush add_turn
flush-Follow role [] turns known h = h
flush-Follow role (b ∷ blocks) [] known h = ((known, λ e. cc), λ e. cc, tt)
flush-Follow role (b ∷ blocks) (t ∷ ts) known h =
    add_turn_later role (b ∷ blocks) t ts none known (λ e. cc) h

module _ (marshal : Json → Text) (unmarshal : Text → Option Json)
    (random_hex_id : ℕ → ℕ → Text) where
  add_message-Follow :
      (m : ℕ) (msg : Object) (system : List Text) (turns : List Turn)
      → Follow none turns
      → Follow none (add_message marshal unmarshal random_hex_id m msg (system, turns)).1
  unfolding add_message
  add_message-Follow m msg system turns h =
      let role = string_of (get (codes "role") msg) in
      let spoken = spoken_blocks marshal unmarshal random_hex_id m msg in
      let as_user =
        flush-Follow user (tool_result_block marshal unmarshal random_hex_id msg ∷ []) turns
          (inl refl) h in
      elim (Bool-cases (eq_text role (codes "system") || eq_text role (codes "developer"))) [
        | inl system ↦ rw system h
        | inr other ↦ elim (Bool-cases (eq_text role user)) [
          | inl is_user ↦
              rw (other, is_user)
                (flush-Follow role spoken turns (inl ((eq_text_iff role user).0 is_user)) h)
          | inr no_user ↦ elim (Bool-cases (eq_text role assistant)) [
            | inl is_assistant ↦
                rw (other, no_user, is_assistant)
                  (flush-Follow role spoken turns
                    (inr ((eq_text_iff role assistant).0 is_assistant)) h)
            | inr no_assistant ↦ elim (Bool-cases (eq_text role (codes "tool"))) [
              | inl tool ↦ rw (other, no_user, no_assistant, tool) as_user
              | inr unknown ↦ rw (other, no_user, no_assistant, unknown) h
            ]
          ]
        ]
      ]

  add_messages-Follow :
      (m : ℕ) (msgs : List Object) (system : List Text) (turns : List Turn)
      → Follow none turns
      → Follow none (add_messages marshal unmarshal random_hex_id m msgs (system, turns)).1
  unfolding add_messages
  add_messages-Follow m [] system turns h = h
  add_messages-Follow m (msg ∷ msgs) system turns h =
      let (system', turns') = add_message marshal unmarshal random_hex_id m msg (system, turns) in
      add_messages-Follow (m + 1) msgs system' turns' (add_message-Follow m msg system turns h)

get-set_if :
    (key other : Text) (j : Option Json) (o : Object)
    → get other (set_if key j o)
      ≡ (if eq_text key other then elim j [ none ↦ get other o | some x ↦ x ] else get other o)
get-set_if key other none o = ground arith
get-set_if key other (some j) o = get-put key other j o

get-set_thinking :
    (effort : Option Effort) (o : Object)
    → get (codes "messages") (set_thinking effort o) ≡ get (codes "messages") o
unfolding eq_text
get-set_thinking none o = refl
get-set_thinking (some none_) o = simp get-put
get-set_thinking (some effort) o = simp get-put

-- The messages of the request that is made are all of the user or the assistant, no two of one role in a
-- row, and none without content.
pub chat_to_anthropic-Follow :
    (to_lower : Text → Text) (marshal : Json → Text) (unmarshal : Text → Option Json)
    (random_hex_id : ℕ → ℕ → Text) (in_ : ChatRequest) (stream : Bool)
    → (turns : List Turn) × (get
          (codes "messages")
          (chat_to_anthropic to_lower marshal unmarshal random_hex_id in_ stream)
        ≡ list (map turn_json turns))
      × Follow none turns
unfolding chat_to_anthropic eq_text
chat_to_anthropic-Follow to_lower marshal unmarshal random_hex_id in_ stream = (
  (add_messages marshal unmarshal random_hex_id 0 in_.messages ([], [])).1,
  simp (get-set_thinking, get-set_if, get-put),
  add_messages-Follow marshal unmarshal random_hex_id 0 in_.messages [] [] tt,
)
