-- ===== src/Tests/PromptRules.antt =====
-- The prompt rules, at one rule for the model mimo.
use pogu.Prelude.{
  ◌≡◌, refl, [], ◌∷◌, none, some, true, false, not, codes, eq_nocase, eq_text, trim_space, order_by,
}
use pogu.Store.{model}
use pogu.Service.Types.{Service, PromptRule, ok, err, already_exists, ◌>>◌}
use pogu.Service.RoundRobin.{no_cursors}
use pogu.Service.PromptRules.{
  PromptRuleInput, create_prompt_rule, create_in, update_in, get_prompt_rule, validate_prompt_rule,
  validate_targets_exist, validate_targets_claimable, typed,
}
use pogu.Service.PromptRules.Resolve.{complete, targets_cut, resolve_rules, resolve_prompt_rules}
use pogu.Service.PromptRules.Selected.{Fired, ForModel, ForGroup, IsLast, None, resolve_rules-Fired}
use pogu.Service.PromptRules.Cache.{Reached, here, there, created, resolved}
use pogu.Service.PromptRules.Claims.{verdict, checks, changes-checks}
use pogu.Tests.{db}

abbrev start : Service
start = record { db = db; rr_cursors = no_cursors; prompt_rules = none }

abbrev terse : PromptRuleInput
terse = record {
  name = codes " terse ";
  prompt = codes "Be brief.";
  inherit = false;
  enabled = true;
  targets = record { target_type = some model; target_id = 1 } ∷ [];
}

abbrev with_terse : Service
with_terse = (resolve_prompt_rules none 1 complete (create_prompt_rule start terse).1).1

abbrev run : Reached eq_nocase (λ load. load ≡ complete) start with_terse
run =
    there (there here (created start terse))
      (resolved (create_prompt_rule start terse).1 none 1 complete refl)

terse_applies :
    (resolve_prompt_rules none 1 complete with_terse).0
    ≡ (record { rule_id = 1; rule_name = codes "terse"; text = codes "Be brief." } ∷ [], true)
unfolding create_prompt_rule resolve_prompt_rules eq_text trim_space order_by
terse_applies = refl

-- A request whose second query failed has left the rule without its target.
abbrev torn : Service
torn = (resolve_prompt_rules none 1 (targets_cut 0) (create_prompt_rule start terse).1).1

torn_run : Reached eq_nocase (λ load. Unit {0}) start torn
torn_run =
    there (there here (created start terse))
      (resolved (create_prompt_rule start terse).1 none 1 (targets_cut 0) tt)

torn_misses : (resolve_prompt_rules none 1 complete torn).0 ≡ ([], false)
unfolding create_prompt_rule resolve_prompt_rules eq_text trim_space order_by
torn_misses = refl

changes-checks_example :
    (verdict (create_in with_terse.db terse) ≡ checks with_terse.db 0 terse)
    × (verdict (update_in with_terse.db 1 terse)
        ≡ (get_prompt_rule with_terse.db 1 >> checks with_terse.db 1 terse))
unfolding create_prompt_rule resolve_prompt_rules eq_text trim_space
changes-checks_example = changes-checks with_terse.db terse 1 (refl, tt) ((λ e. cc), tt)

-- A second rule for the model is refused by a check, a change of the rule itself is not.
taken_and_kept :
    (checks with_terse.db 0 terse ≡ err already_exists) × (checks with_terse.db 1 terse ≡ ok tt)
unfolding create_prompt_rule resolve_prompt_rules eq_text trim_space validate_prompt_rule
    validate_targets_exist validate_targets_claimable typed
taken_and_kept = (refl, refl)

abbrev terse_rule : PromptRule
terse_rule = record {
  id = 1;
  name = codes "terse";
  prompt = codes "Be brief.";
  inherit = false;
  enabled = true;
  groups = [];
  models = 1 ∷ [];
}

resolve_rules-Fired_example :
    Fired none 1 (terse_rule ∷ []) (resolve_rules none 1 (terse_rule ∷ [])).0
    × ((r : PromptRule)
        → IsLast (ForModel 1) (terse_rule ∷ []) r
        → (resolve_rules none 1 (terse_rule ∷ [])).1 ≡ not r.inherit)
    × ((r : PromptRule)
        → None (ForModel 1) (terse_rule ∷ [])
        → IsLast (ForGroup none) (terse_rule ∷ []) r
        → (resolve_rules none 1 (terse_rule ∷ [])).1 ≡ not r.inherit)
    × (None (ForModel 1) (terse_rule ∷ [])
        → None (ForGroup none) (terse_rule ∷ [])
        → (resolve_rules none 1 (terse_rule ∷ [])).1 ≡ false)
resolve_rules-Fired_example = resolve_rules-Fired none 1 (terse_rule ∷ [])
