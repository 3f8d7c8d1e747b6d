-- ===== src/Service/PromptRules/Resolve.antt =====
-- The cached rules and the prompts of a request: loadPromptRules, promptRuleSnapshot,
-- ResolvePromptRules and PromptRuleByName (internal/service/promptrules.go).
use pogu.Prelude.{
  ℕ, ◌≡◌, refl, List, [], ◌∷◌, ◌++◌, append_assoc, append-nil, sym, ap, ◌∙◌, Option, none, some,
  Bool, false, take, ◌&&◌, ◌||◌, not, ◌==◌, Text, if◌then◌else◌, arith, map, where_, any, find,
  order_by, trim_space, eq_text, Bool-cases, inl, inr,
}
use pogu.Store.{Db, RuleRow, TargetRow, TargetType, group, model, same_target}
use pogu.Service.Types.{Service, PromptRule}

abbrev targets_of : TargetType → RuleRow → List TargetRow → List ℕ
targets_of type r ts =
    map (λ t. t.target_id) (where_ (λ t. t.rule_id == r.id && same_target t.target_type type) ts)

abbrev loaded : List TargetRow → RuleRow → PromptRule
loaded ts r = record {
  id = r.id;
  name = r.name;
  prompt = r.prompt;
  inherit = r.inherit;
  enabled = r.enabled;
  groups = targets_of group r ts;
  models = targets_of model r ts;
}

-- How the two queries of a load end: both complete, an error before all rules are read, or an error (that of a canceled
-- request, say) when so many targets are.
pub data Load : Type 0 where
  complete no_rules : Load
  targets_cut : ℕ → Load

unfoldable pub load_prompt_rules : Load → Db → List PromptRule
load_prompt_rules complete db =
    map (loaded db.targets.rows) (order_by (λ r. r.position) (λ r. r.id) db.rules.rows)
load_prompt_rules no_rules db = []
load_prompt_rules (targets_cut n) db =
    map (loaded (take n db.targets.rows)) (order_by (λ r. r.position) (λ r. r.id) db.rules.rows)

-- promptRuleSnapshot, which keeps what it loads, however the load ends
unfoldable pub prompt_rule_snapshot : Load → Service → List PromptRule × Service
unfolding load_prompt_rules
prompt_rule_snapshot load s = elim s.prompt_rules [
  | some rules ↦ (rules, s)
  | none ↦
      (load_prompt_rules load s.db, record s { prompt_rules = some (load_prompt_rules load s.db) })
]

pub record PromptSegment : Type 0 where
  pub rule_id : ℕ
  pub rule_name : Text
  pub text : Text

abbrev pub segment : PromptRule → PromptSegment
segment r = record { rule_id = r.id; rule_name = r.name; text = r.prompt }

-- The variables of the loop of ResolvePromptRules.
pub record Scan : Type 0 where
  pub model_rule : Option PromptRule
  pub group_rule : Option PromptRule
  pub segments : List PromptSegment

abbrev pub matches_model : ℕ → PromptRule → Bool
matches_model model_id r = not (model_id == 0) && any (λ i. i == model_id) r.models

abbrev pub matches_group : Option ℕ → PromptRule → Bool
matches_group none r = false
matches_group (some id) r = any (λ i. i == id) r.groups

-- The end of ResolvePromptRules: `modelRule` decides before `groupRule`.
abbrev pub suppressed : Option PromptRule → Option PromptRule → Bool
suppressed (some r) group_rule = not r.inherit
suppressed none (some r) = not r.inherit
suppressed none none = false

module _ (group_id : Option ℕ) (model_id : ℕ) where
  abbrev pub matches : PromptRule → Bool
  matches r = matches_model model_id r || matches_group group_id r

  -- One round of the loop.
  scan_rule : PromptRule → Scan → Scan
  scan_rule r s = if not r.enabled then s else record {
    model_rule = if matches_model model_id r then some r else s.model_rule;
    group_rule = if matches_group group_id r then some r else s.group_rule;
    segments = if matches r then s.segments ++ segment r ∷ [] else s.segments;
  }

  scan_rules : List PromptRule → Scan → Scan
  unfolding scan_rule
  scan_rules [] s = s
  scan_rules (r ∷ rs) s = scan_rules rs (scan_rule r s)

  unfoldable pub resolve_rules : List PromptRule → List PromptSegment × Bool
  unfolding scan_rules
  resolve_rules rules =
      let s = scan_rules rules (record { model_rule = none; group_rule = none; segments = [] }) in
      (s.segments, suppressed s.model_rule s.group_rule)

  unfoldable pub resolve_prompt_rules : Load → Service → (List PromptSegment × Bool) × Service
  unfolding prompt_rule_snapshot resolve_rules
  resolve_prompt_rules load s =
      let (rules, s') = prompt_rule_snapshot load s in (resolve_rules rules, s')

-- PromptRuleByName; `equal_fold` is strings.EqualFold.
unfoldable pub prompt_rule_by_name :
    (Text → Text → Bool) → Load → Service → Text → Option (PromptSegment × Bool) × Service
unfolding prompt_rule_snapshot
prompt_rule_by_name equal_fold load s name = if eq_text (trim_space name) [] then (none, s) else (
  elim (find (λ r. r.enabled && equal_fold r.name (trim_space name))
      (prompt_rule_snapshot load s).0) [ none ↦ none | some r ↦ some (segment r, r.inherit) ],
  (prompt_rule_snapshot load s).1,
)

-- The last rule that passes a test, or what there was before.
unfoldable pub last_where :
    (PromptRule → Bool) → List PromptRule → Option PromptRule → Option PromptRule
last_where p [] before = before
last_where p (r ∷ rs) before = last_where p rs (if p r then some r else before)

module _ (group_id : Option ℕ) (model_id : ℕ) where
  scan_rules-segments :
      (rs : List PromptRule) (s : Scan)
      → (scan_rules group_id model_id rs s).segments
        ≡ s.segments ++ map segment (where_ (λ r. r.enabled && matches group_id model_id r) rs)
  unfolding scan_rules scan_rule
  scan_rules-segments [] s = sym (append-nil s.segments)
  scan_rules-segments (r ∷ rs) s =
      scan_rules-segments rs (scan_rule group_id model_id r s) ∙ elim (Bool-cases r.enabled) [
        | inr off ↦ ground (arith, off)
        | inl on ↦ elim (Bool-cases (matches group_id model_id r)) [
          | inr out ↦ ground (arith, on, out)
          | inl into ↦ ground (
            arith,
            on,
            into,
            append_assoc s.segments (segment r ∷ [])
                (map segment (where_ (λ r. r.enabled && matches group_id model_id r) rs)),
          )
        ]
      ]

  scan_rules-model_rule :
      (rs : List PromptRule) (s : Scan)
      → (scan_rules group_id model_id rs s).model_rule
        ≡ last_where (λ r. r.enabled && matches_model model_id r) rs s.model_rule
  unfolding scan_rules scan_rule last_where
  scan_rules-model_rule [] s = refl
  scan_rules-model_rule (r ∷ rs) s =
      scan_rules-model_rule rs (scan_rule group_id model_id r s)
      ∙ ap (last_where (λ r. r.enabled && matches_model model_id r) rs) (ground arith)

  scan_rules-group_rule :
      (rs : List PromptRule) (s : Scan)
      → (scan_rules group_id model_id rs s).group_rule
        ≡ last_where (λ r. r.enabled && matches_group group_id r) rs s.group_rule
  unfolding scan_rules scan_rule last_where
  scan_rules-group_rule [] s = refl
  scan_rules-group_rule (r ∷ rs) s =
      scan_rules-group_rule rs (scan_rule group_id model_id r s)
      ∙ ap (last_where (λ r. r.enabled && matches_group group_id r) rs) (ground arith)

-- The prompts of a request are the prompts of the enabled rules that claim its model or its group, in
-- the order of the rules. The global prompt is suppressed when the last enabled rule that claims the
-- model does not inherit, or, where no enabled rule claims the model, the last that claims the group.
pub resolve_rules_lem :
    (group_id : Option ℕ) (model_id : ℕ) (rules : List PromptRule)
    → ((resolve_rules group_id model_id rules).0
        ≡ map segment (where_ (λ r. r.enabled && matches group_id model_id r) rules))
      × ((resolve_rules group_id model_id rules).1
          ≡ suppressed
              (last_where (λ r. r.enabled && matches_model model_id r) rules none)
              (last_where (λ r. r.enabled && matches_group group_id r) rules none))
unfolding resolve_rules
resolve_rules_lem group_id model_id rules =
    let begin : Scan = record { model_rule = none; group_rule = none; segments = [] } in
    (
      scan_rules-segments group_id model_id rules begin,
      ap (λ m. suppressed m (scan_rules group_id model_id rules begin).group_rule)
            (scan_rules-model_rule group_id model_id rules begin)
          ∙ ap (suppressed _) (scan_rules-group_rule group_id model_id rules begin),
    )
