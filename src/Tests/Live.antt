-- ===== src/Tests/Live.antt =====
-- The deletions, at a rule that claims the model mimo and one that claims the group fast.
use pogu.Prelude.{◌≡◌, refl, List, [], ◌∷◌, Bool, true, false, map}
use pogu.Store.{Db, TargetRow, group, model}
use pogu.Service.Types.{Result, ok, err}
use pogu.Service.Groups.{delete_group_in, without_group}
use pogu.Service.Models.{delete_model_in, without_model, delete_provider}
use pogu.Service.PromptRules.{target_exists}
use pogu.Service.PromptRules.Claims.{claim_of}
use pogu.Service.Live.{TargetsLive, delete_group_in-TargetsLive, delete_model_in-TargetsLive}
use pogu.Tests.{db}

abbrev for_mimo : TargetRow
for_mimo = record { id = 1; rule_id = 1; target_type = model; target_id = 1 }

abbrev for_fast : TargetRow
for_fast = record { id = 2; rule_id = 2; target_type = group; target_id = 1 }

abbrev claimed : Db
claimed = record db { targets = record { rows = for_mimo ∷ for_fast ∷ []; last_id = 2 } }

group_deleted : delete_group_in claimed 1 ≡ ok (without_group claimed 1)
unfolding delete_group_in
group_deleted = refl

delete_group_in-TargetsLive_example : TargetsLive (without_group claimed 1)
delete_group_in-TargetsLive_example =
    delete_group_in-TargetsLive claimed 1 (without_group claimed 1) group_deleted (refl, (refl, tt))

model_deleted : delete_model_in claimed 1 ≡ ok (without_model claimed 1)
unfolding delete_model_in
model_deleted = refl

delete_model_in-TargetsLive_example : TargetsLive (without_model claimed 1)
delete_model_in-TargetsLive_example =
    delete_model_in-TargetsLive claimed 1 (without_model claimed 1) model_deleted (refl, (refl, tt))

-- The same is not so of DeleteProvider: the target of mimo outlives it.
abbrev live_after : Result Db → List Bool
live_after (err e) = []
live_after (ok db) = map (λ t. target_exists db (claim_of t)) db.targets.rows

delete_provider_orphans : live_after (delete_provider claimed 1) ≡ false ∷ true ∷ []
unfolding delete_provider
delete_provider_orphans = refl
