-- ===== src/Service/PromptRules.antt =====
-- internal/service/promptrules.go: named system prompts and the groups and models that they claim. A
-- change runs in a transaction: it yields a new database or leaves the old one. Labels and
-- timestamps are left out.
pub mod Resolve
pub mod Selected
pub mod Cache
pub mod Claims
use pogu.Prelude.{
  ℕ, ◌+◌, List, [], ◌∷◌, Option, none, some, Bool, true, false, ◌&&◌, ◌||◌, not, ◌==◌, leb, Text,
  if◌then◌else◌, length, map, where_, find, any, update_where, order_by, trim_space, eq_text,
}
use pogu.Store.{
  Db, RuleRow, TargetRow, TargetType, Table, insert_row, delete_where, with_rows, next_position,
  same_target,
}
use pogu.Service.Types.{
  Result, ok, err, Error, validation, already_exists, not_found, guard, or_fail, ◌>>=◌, ◌>>◌,
  Service, PromptRule,
}

-- PromptRuleTarget; `target_type` is none for a text other than "group" and "model".
pub record PromptTarget : Type 0 where
  pub target_type : Option TargetType
  pub target_id : ℕ

pub record PromptRuleInput : Type 0 where
  pub name : Text
  pub prompt : Text
  pub inherit : Bool
  pub enabled : Bool
  pub targets : List PromptTarget

-- What a target row claims.
abbrev pub Claim : Type 0
Claim = TargetType × ℕ

abbrev pub claims : Claim → TargetRow → Bool
claims (type, id) t = same_target t.target_type type && t.target_id == id

abbrev pub same_claim : Claim → Claim → Bool
same_claim (type, id) (type', id') = same_target type type' && id == id'

-- The targets whose type is known; every target that is validated is one.
unfoldable pub typed : List PromptTarget → List Claim
typed [] = []
typed (t ∷ ts) = elim t.target_type [ none ↦ typed ts | some type ↦ (type, t.target_id) ∷ typed ts ]

-- The loop over the targets of validatePromptRule, with the set `seen`.
unfoldable pub valid_targets : List Claim → List PromptTarget → Bool
valid_targets seen [] = true
valid_targets seen (t ∷ ts) = elim t.target_type [
  | none ↦ false
  | some type ↦
      not (any (same_claim (type, t.target_id)) seen)
      && valid_targets ((type, t.target_id) ∷ seen) ts
]

abbrev max_prompt_rule_name_runes : ℕ
max_prompt_rule_name_runes = 64

abbrev max_system_prompt_runes : ℕ
max_system_prompt_runes = 16384

unfoldable pub validate_prompt_rule : PromptRuleInput → Result Text
unfolding valid_targets
validate_prompt_rule in_ = do
  guard (not (eq_text (trim_space in_.name) [])) validation
  guard (leb (length (trim_space in_.name)) max_prompt_rule_name_runes) validation
  guard (leb (length in_.prompt) max_system_prompt_runes) validation
  guard (not (length in_.targets == 0)) validation
  guard (valid_targets [] in_.targets) validation
  ok (trim_space in_.name)

abbrev pub target_exists : Db → Claim → Bool
target_exists db (TargetType.group, id) = any (λ g. g.id == id) db.groups.rows
target_exists db (TargetType.model, id) = any (λ m. m.id == id) db.models.rows

unfoldable pub validate_targets_exist : Db → List Claim → Result (Unit {0})
validate_targets_exist db [] = ok tt
validate_targets_exist db (c ∷ cs) =
    let rest = validate_targets_exist db cs in if target_exists db c then rest else err validation

unfoldable pub validate_targets_claimable : Db → List Claim → ℕ → Result (Unit {0})
validate_targets_claimable db [] exclude_rule_id = ok tt
validate_targets_claimable db (c ∷ cs) exclude_rule_id =
    let rest = validate_targets_claimable db cs exclude_rule_id in
    elim (find (claims c) db.targets.rows) [
      | none ↦ rest
      | some owner ↦ if owner.rule_id == exclude_rule_id then rest else err already_exists
    ]

-- UNIQUE (target_type, target_id)
unfoldable pub insert_prompt_targets : ℕ → List Claim → Table TargetRow → Result (Table TargetRow)
insert_prompt_targets rule_id [] t = ok t
insert_prompt_targets rule_id ((type, target_id) ∷ cs) t =
    let rest = insert_prompt_targets rule_id cs (
      insert_row
        (λ id. record { id = id; rule_id = rule_id; target_type = type; target_id = target_id })
        t) in
    if any (claims (type, target_id)) t.rows then err already_exists else rest

-- ORDER BY r.position, r.id
unfoldable pub list_prompt_rules : Db → List RuleRow
list_prompt_rules db = order_by (λ r. r.position) (λ r. r.id) db.rules.rows

-- A rule with its targets, which attachTargets reads ORDER BY t.id.
unfoldable pub get_prompt_rule : Db → ℕ → Result (RuleRow × List TargetRow)
get_prompt_rule db id = do
  r ← or_fail (find (λ r. r.id == id) db.rules.rows) not_found
  ok (r, order_by (λ t. t.id) (λ t. t.id) (where_ (λ t. t.rule_id == r.id) db.targets.rows))

abbrev made_rule : PromptRuleInput → Text → ℕ → ℕ → RuleRow
made_rule in_ name position id = record {
  id = id;
  name = name;
  prompt = in_.prompt;
  inherit = in_.inherit;
  enabled = in_.enabled;
  position = position;
}

-- The transaction of CreatePromptRule, with the id of the rule.
unfoldable pub create_in : Db → PromptRuleInput → Result (ℕ × Db)
unfolding validate_prompt_rule validate_targets_exist validate_targets_claimable
    insert_prompt_targets typed
create_in db in_ = do
  name ← validate_prompt_rule in_
  validate_targets_exist db (typed in_.targets)
  validate_targets_claimable db (typed in_.targets) 0
  targets ← insert_prompt_targets (db.rules.last_id + 1) (typed in_.targets) db.targets
  ok (
    db.rules.last_id + 1,
    record db {
      rules =
          insert_row (made_rule in_ name (next_position (λ r. r.position) db.rules.rows)) db.rules;
      targets = targets;
    },
  )

abbrev updated_rule : PromptRuleInput → Text → RuleRow → RuleRow
updated_rule in_ name r = record r {
  name = name;
  prompt = in_.prompt;
  inherit = in_.inherit;
  enabled = in_.enabled;
}

-- The transaction of UpdatePromptRule.
unfoldable pub update_in : Db → ℕ → PromptRuleInput → Result Db
unfolding get_prompt_rule validate_prompt_rule validate_targets_exist validate_targets_claimable
    insert_prompt_targets typed
update_in db id in_ = do
  get_prompt_rule db id
  name ← validate_prompt_rule in_
  validate_targets_exist db (typed in_.targets)
  validate_targets_claimable db (typed in_.targets) id
  targets ←
      insert_prompt_targets id (typed in_.targets) (delete_where (λ t. t.rule_id == id) db.targets)
  ok (record db {
    rules =
        with_rows (update_where (λ r. r.id == id) (updated_rule in_ name) db.rules.rows) db.rules;
    targets = targets;
  })

-- DELETE FROM prompt_rules, which cascades to the targets of the rule.
unfoldable pub delete_in : Db → ℕ → Result Db
delete_in db id = do
  guard (any (λ r. r.id == id) db.rules.rows) not_found
  ok (record db {
    rules = delete_where (λ r. r.id == id) db.rules;
    targets = delete_where (λ t. t.rule_id == id) db.targets;
  })

-- The loop of ReorderPromptRules over the ids, with the set `seen`.
unfoldable pub in_order : List RuleRow → List ℕ → List ℕ → Bool
in_order rules seen [] = true
in_order rules seen (id ∷ ids) =
    any (λ r. r.id == id) rules && not (any (λ i. i == id) seen) && in_order rules (id ∷ seen) ids

unfoldable pub place : ℕ → List ℕ → List RuleRow → List RuleRow
place position [] rules = rules
place position (id ∷ ids) rules =
    place (position + 1) ids
      (update_where (λ r. r.id == id) (λ r. record r { position = position }) rules)

unfoldable pub reorder_in : Db → List ℕ → Result Db
unfolding in_order place list_prompt_rules
reorder_in db ids = do
  guard (length ids == length (list_prompt_rules db)) validation
  guard (in_order (list_prompt_rules db) [] ids) validation
  ok (record db { rules = with_rows (place 0 ids db.rules.rows) db.rules })

-- deletePromptTargetsFor
unfoldable pub delete_prompt_targets_for : Claim → Db → Db
delete_prompt_targets_for c db = record db { targets = delete_where (claims c) db.targets }

-- invalidatePromptRules
abbrev pub invalidate_prompt_rules : Service → Service
invalidate_prompt_rules s = record s { prompt_rules = none }

-- What a write does with the outcome of its transaction.
unfoldable pub commit : Service → Result Db → Result (Unit {0}) × Service
commit s (err e) = (err e, s)
commit s (ok db) = (ok tt, invalidate_prompt_rules (record s { db = db }))

unfoldable pub create_prompt_rule :
    Service → PromptRuleInput → Result (RuleRow × List TargetRow) × Service
unfolding create_in get_prompt_rule
create_prompt_rule s in_ = elim (create_in s.db in_) [
  | err e ↦ (err e, s)
  | ok (id, db) ↦ (get_prompt_rule db id, invalidate_prompt_rules (record s { db = db }))
]

unfoldable pub update_prompt_rule :
    Service → ℕ → PromptRuleInput → Result (RuleRow × List TargetRow) × Service
unfolding update_in get_prompt_rule
update_prompt_rule s id in_ = elim (update_in s.db id in_) [
  | err e ↦ (err e, s)
  | ok db ↦ (get_prompt_rule db id, invalidate_prompt_rules (record s { db = db }))
]

unfoldable pub delete_prompt_rule : Service → ℕ → Result (Unit {0}) × Service
unfolding delete_in commit
delete_prompt_rule s id = commit s (delete_in s.db id)

unfoldable pub reorder_prompt_rules : Service → List ℕ → Result (Unit {0}) × Service
unfolding reorder_in commit
reorder_prompt_rules s ids = commit s (reorder_in s.db ids)
