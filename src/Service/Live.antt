-- ===== src/Service/Live.antt =====
-- A prompt rule names groups and models that exist: the deletions that keep it so.
use pogu.Prelude.{
  ℕ, ◌≡◌, refl, List, [], ◌∷◌, Bool, true, ◌&&◌, not, ◌==◌, arith, where_, any, Bool-cases, inl,
  inr, subst, All, All-where_, All-imp, All-both, where_-holds,
}
use pogu.Store.{Db, TargetRow, TargetType, group, model, same_target}
use pogu.Service.Types.{ok, guard, not_found, ok-injective, >>=-eq-ok}
use pogu.Service.PromptRules.{claims, target_exists, delete_prompt_targets_for}
use pogu.Service.PromptRules.Claims.{claim_of}
use pogu.Service.Groups.{delete_group_in, without_group}
use pogu.Service.Models.{delete_model_in, without_model}

-- Every target of a prompt rule is a group or a model of the database.
abbrev pub TargetsLive : Db → Type 0
TargetsLive db = All (λ t. target_exists db (claim_of t) ≡ true) db.targets.rows

any-kept {ℓ} :
    {A : Type ℓ} (p q : A → Bool) (xs : List A)
    → ((x : A) → p x ≡ true → q x ≡ true)
    → any p xs ≡ true
    → any p (where_ q xs) ≡ true
any-kept p q [] f h = h
any-kept p q (x ∷ xs) f h = elim (Bool-cases (q x)) [
  | inl kept ↦ ground (arith, kept, h, any-kept p q xs f)
  | inr gone ↦ ground (arith, gone, h, f x, any-kept p q xs f)
]

-- A target that is not the deleted one is still there.
group_kept :
    (db : Db) (id : ℕ) (t : TargetRow)
    → target_exists db (claim_of t) ≡ true
    → not (claims (group, id) t) ≡ true
    → (db' : Db) → db'.groups.rows ≡ where_ (λ g. not (g.id == id)) db.groups.rows
    → db'.models.rows ≡ db.models.rows
    → target_exists db' (claim_of t) ≡ true
group_kept db id t h l db' e e' = kinds t.target_type h l
  where
    kinds :
        (type : TargetType)
        → target_exists db (type, t.target_id) ≡ true
        → not (same_target type group && t.target_id == id) ≡ true
        → target_exists db' (type, t.target_id) ≡ true
    kinds model h l = simp e' h
    kinds group h l = simp e (
        any-kept (λ g. g.id == t.target_id) (λ g. not (g.id == id)) db.groups.rows
          (λ g i. ground (arith, i, l)) h)

model_kept :
    (db : Db) (id : ℕ) (t : TargetRow)
    → target_exists db (claim_of t) ≡ true
    → not (claims (model, id) t) ≡ true
    → (db' : Db) → db'.models.rows ≡ where_ (λ m. not (m.id == id)) db.models.rows
    → db'.groups.rows ≡ db.groups.rows
    → target_exists db' (claim_of t) ≡ true
model_kept db id t h l db' e e' = kinds t.target_type h l
  where
    kinds :
        (type : TargetType)
        → target_exists db (type, t.target_id) ≡ true
        → not (same_target type model && t.target_id == id) ≡ true
        → target_exists db' (type, t.target_id) ≡ true
    kinds group h l = simp e' h
    kinds model h l = simp e (
        any-kept (λ m. m.id == t.target_id) (λ m. not (m.id == id)) db.models.rows
          (λ m i. ground (arith, i, l)) h)

-- DeleteGroup keeps the prompt targets live: where every target is a group or a model of the database,
-- every target that is left behind the deletion still is.
pub delete_group_in-TargetsLive :
    (db : Db) (id : ℕ) (db' : Db)
    → delete_group_in db id ≡ ok db'
    → TargetsLive db
    → TargetsLive db'
unfolding delete_group_in without_group delete_prompt_targets_for
delete_group_in-TargetsLive db id db' h live =
    let p : TargetRow → Bool = λ t. not (claims (group, id) t) in
    let (_, _, made) = >>=-eq-ok (guard (any (λ g. g.id == id) db.groups.rows) not_found) _ h in
    subst TargetsLive (ok-injective made) (
      All-imp _ _ (λ t k. group_kept db id t k.0 k.1 (without_group db id) refl refl) _
        (All-both _ _ _ (All-where_ _ p db.targets.rows live) (where_-holds p db.targets.rows)))

-- DeleteModel keeps the prompt targets live: where every target is a group or a model of the database,
-- every target that is left behind the deletion still is.
pub delete_model_in-TargetsLive :
    (db : Db) (id : ℕ) (db' : Db)
    → delete_model_in db id ≡ ok db'
    → TargetsLive db
    → TargetsLive db'
unfolding delete_model_in without_model delete_prompt_targets_for
delete_model_in-TargetsLive db id db' h live =
    let p : TargetRow → Bool = λ t. not (claims (model, id) t) in
    let (_, _, made) = >>=-eq-ok (guard (any (λ m. m.id == id) db.models.rows) not_found) _ h in
    subst TargetsLive (ok-injective made) (
      All-imp _ _ (λ t k. model_kept db id t k.0 k.1 (without_model db id) refl refl) _
        (All-both _ _ _ (All-where_ _ p db.targets.rows live) (where_-holds p db.targets.rows)))
