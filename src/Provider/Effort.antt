-- ===== src/Provider/Effort.antt =====
-- internal/provider/reasoning.go: effort names, token budgets, and the suffix `model(value)`. `to_lower`
-- is strings.ToLower; `atoi` is strconv.Atoi, with 0 for a negative number, which BudgetToLevel
-- treats like 0.
use mathlib.Core.List.{reverse}
use pogu.Prelude.{
  ℕ, ◌≤◌, [], ◌∷◌, Option, none, some, Bool, ◌||◌, ◌==◌, leb, if◌then◌else◌, arith, Text, codes,
  eq_text, trim_space, any,
}

-- The canonical ladder, from none to max.
pub data Effort : Type 0 where
  none_ minimal low medium high xhigh max_ : Effort

abbrev pub rank : Effort → ℕ
rank none_ = 0
rank minimal = 1
rank low = 2
rank medium = 3
rank high = 4
rank xhigh = 5
rank max_ = 6

-- The switch of NormalizeEffort on the lowered and trimmed text.
unfoldable pub effort_named : Text → Option Effort
effort_named e =
    if eq_text e (codes "off") || eq_text e (codes "none") || eq_text e (codes "disabled")
    then some none_
    else if eq_text e (codes "min") || eq_text e (codes "minimal")
    then some minimal
    else if eq_text e (codes "low")
    then some low
    else if eq_text e (codes "medium")
    then some medium
    else if eq_text e (codes "high")
    then some high
    else if eq_text e (codes "xhigh")
    then some xhigh
    else if eq_text e (codes "max")
    then some max_
    else if eq_text e (codes "ultra")
    then some xhigh
    else if eq_text e (codes "adaptive")
    then some high
    else none

unfoldable pub normalize_effort : (Text → Text) → Text → Option Effort
unfolding effort_named
normalize_effort to_lower s = effort_named (to_lower (trim_space s))

-- MapChatEffortToAnthropic, on the canonical ladder
unfoldable pub map_chat_effort_to_anthropic : Effort → Effort
map_chat_effort_to_anthropic minimal = low
map_chat_effort_to_anthropic e = e

unfoldable pub budget_to_level : ℕ → Effort
budget_to_level budget =
    if leb budget 0
    then none_
    else if leb budget 768
    then minimal
    else if leb budget 4096
    then low
    else if leb budget 16384
    then medium
    else if leb budget 28672
    then high
    else if leb budget 32768
    then xhigh
    else max_

-- A larger budget is never mapped to a lower level, also behind the mapping to Anthropic's levels.
budget_to_level_mono :
    (a b : ℕ)
    → a ≤ b
    → (rank (budget_to_level a) ≤ rank (budget_to_level b))
      × (rank (map_chat_effort_to_anthropic (budget_to_level a))
          ≤ rank (map_chat_effort_to_anthropic (budget_to_level b)))
unfolding budget_to_level map_chat_effort_to_anthropic
budget_to_level_mono a b h = ground arith

-- The class \s of the expression `^(.*)\(([^()]+)\)\s*$`, which is read from its end.
regex_space : ℕ → Bool
regex_space c = c == 9 || c == 10 || c == 12 || c == 13 || c == 32

drop_spaces : Text → Text
unfolding regex_space
drop_spaces [] = []
drop_spaces (c ∷ s) = let rest = drop_spaces s in if regex_space c then rest else c ∷ s

-- The characters up to a parenthesis, turned round, and what is left from there.
take_value : Text → Text → Text × Text
take_value value [] = (value, [])
take_value value (c ∷ s) =
    let rest = take_value (c ∷ value) s in if c == b'(' || c == b')' then (value, c ∷ s) else rest

opened : Text × Text → Option (Text × Text)
opened ([], s) = none
opened (v ∷ value, []) = none
opened (v ∷ value, c ∷ s) =
    if c == b'(' then (if any (λ d. d == 10) s then none else some (reverse s, v ∷ value)) else none

closed : Text → Option (Text × Text)
unfolding take_value opened
closed [] = none
closed (c ∷ s) = if c == b')' then opened (take_value [] s) else none

-- suffixRe.FindStringSubmatch
unfoldable pub match_suffix : Text → Option (Text × Text)
unfolding closed drop_spaces
match_suffix s = closed (drop_spaces (reverse s))

module _ (to_lower : Text → Text) (atoi : Text → Option ℕ) where
  -- The part of ParseThinkingSuffix behind the match: the model and the effort that overrides.
  parse_value : Text → Text → Text → Text × Option Effort
  unfolding budget_to_level normalize_effort
  parse_value model clean raw =
      if eq_text raw (codes "none") || eq_text raw (codes "off")
      then (clean, some none_)
      else if eq_text raw (codes "auto")
      then (clean, none)
      else elim (atoi raw) [
        | some budget ↦ (clean, some (budget_to_level budget))
        | none ↦ elim (normalize_effort to_lower raw) [
          | some level ↦ (clean, some level)
          | none ↦ (model, none)
        ]
      ]

  unfoldable pub parse_thinking_suffix : Text → Text × Option Effort
  unfolding match_suffix parse_value
  parse_thinking_suffix model = elim (match_suffix model) [
    | none ↦ (model, none)
    | some (clean, value) ↦
        if eq_text (trim_space clean) []
        then (model, none)
        else parse_value model (trim_space clean) (to_lower (trim_space value))
  ]

-- The text of a canonical effort.
abbrev pub effort_text : Effort → Text
effort_text none_ = codes "none"
effort_text minimal = codes "minimal"
effort_text low = codes "low"
effort_text medium = codes "medium"
effort_text high = codes "high"
effort_text xhigh = codes "xhigh"
effort_text max_ = codes "max"
