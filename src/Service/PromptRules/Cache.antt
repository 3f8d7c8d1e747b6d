-- ===== src/Service/PromptRules/Cache.antt =====
-- The cache of the prompt rules against the database.
use pogu.Prelude.{ℕ, ◌≡◌, List, Option, none, some, Bool, Text, ◌⊎◌}
use pogu.Store.{Db}
use pogu.Service.Types.{Service, PromptRule}
use pogu.Service.PromptRules.{
  PromptRuleInput, create_prompt_rule, update_prompt_rule, delete_prompt_rule, reorder_prompt_rules,
}
use pogu.Service.PromptRules.Resolve.{
  Load, load_prompt_rules, resolve_prompt_rules, prompt_rule_by_name,
}

-- One operation on the prompt rules, whose loads end in the ways that `Ends` says.
pub data Step (equal_fold : Text → Text → Bool) (Ends : Load → Type 0)
    : Service → Service → Type 0 where
  created :
      (s : Service) (in_ : PromptRuleInput) → Step equal_fold Ends s (create_prompt_rule s in_).1
  updated :
      (s : Service) (id : ℕ) (in_ : PromptRuleInput)
      → Step equal_fold Ends s (update_prompt_rule s id in_).1
  deleted : (s : Service) (id : ℕ) → Step equal_fold Ends s (delete_prompt_rule s id).1
  reordered : (s : Service) (ids : List ℕ) → Step equal_fold Ends s (reorder_prompt_rules s ids).1
  resolved :
      (s : Service) (group_id : Option ℕ) (model_id : ℕ) (load : Load)
      → Ends load
      → Step equal_fold Ends s (resolve_prompt_rules group_id model_id load s).1
  named :
      (s : Service) (name : Text) (load : Load)
      → Ends load
      → Step equal_fold Ends s (prompt_rule_by_name equal_fold load s name).1

pub data Reached (equal_fold : Text → Text → Bool) (Ends : Load → Type 0) (start : Service)
    : Service → Type 0 where
  here : Reached equal_fold Ends start start
  there :
      {s t : Service}
      → Reached equal_fold Ends start s
      → Step equal_fold Ends s t
      → Reached equal_fold Ends start t

-- A load of the database as it is now, that ended in one of the ways.
abbrev IsLoad : (Load → Type 0) → Db → List PromptRule → Type 0
IsLoad Ends db rules = (load : Load) × Ends load × (rules ≡ load_prompt_rules load db)

abbrev IsCoherent : (Load → Type 0) → Service → Type 0
IsCoherent Ends s =
    (s.prompt_rules ≡ none)
    ⊎ ((rules : List PromptRule) × (s.prompt_rules ≡ some rules) × IsLoad Ends s.db rules)
