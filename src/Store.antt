-- ===== src/Store.antt =====
-- internal/store: the tables that the service reads and writes, as lists of rows in the order of
-- insertion (internal/store/schema.go). Foreign keys are enforced (store.go), so the deletion of a
-- row removes the rows that refer to it. The bookkeeping columns created_at and updated_at, which
-- no operation reads, are left out.
use pogu.Prelude.{ℕ, ◌+◌, max, List, [], ◌∷◌, ◌++◌, Option, Bool, not, Text, where_}

pub data ProviderType : Type 0 where
  openai openai_responses anthropic : ProviderType

pub data KeySelection : Type 0 where
  first round_robin : KeySelection

pub data TargetType : Type 0 where
  group model : TargetType

pub record ProviderRow : Type 0 where
  pub id : ℕ
  pub name : Text
  pub type : ProviderType
  pub prefix : Text
  pub base_url : Text
  pub key_selection : KeySelection
  pub enabled : Bool

pub record KeyRow : Type 0 where
  pub id : ℕ
  pub provider_id : ℕ
  pub name : Text
  pub encrypted_secret : Text
  pub secret_hash : Text
  pub enabled : Bool
  pub sort_order : ℕ
  pub last_used_at : Option ℕ

pub record ModelRow : Type 0 where
  pub id : ℕ
  pub provider_id : ℕ
  pub name : Text
  pub scheme : Text
  pub enabled : Bool

pub record GroupRow : Type 0 where
  pub id : ℕ
  pub name : Text
  pub selection : KeySelection
  pub enabled : Bool

pub record MemberRow : Type 0 where
  pub id : ℕ
  pub group_id : ℕ
  pub model_id : ℕ
  pub position : ℕ
  pub enabled : Bool

pub record RuleRow : Type 0 where
  pub id : ℕ
  pub name : Text
  pub prompt : Text
  pub inherit : Bool
  pub enabled : Bool
  pub position : ℕ

pub record TargetRow : Type 0 where
  pub id : ℕ
  pub rule_id : ℕ
  pub target_type : TargetType
  pub target_id : ℕ

-- AUTOINCREMENT: an id is never used again, also when its row is gone.
pub record Table {ℓ} (A : Type ℓ) : Type ℓ where
  pub rows : List A
  pub last_id : ℕ

pub record Db : Type 0 where
  pub providers : Table ProviderRow
  pub keys : Table KeyRow
  pub models : Table ModelRow
  pub groups : Table GroupRow
  pub members : Table MemberRow
  pub rules : Table RuleRow
  pub targets : Table TargetRow

abbrev pub empty_table {ℓ} : {A : Type ℓ} → Table A
empty_table = record { rows = []; last_id = 0 }

abbrev pub empty_db : Db
empty_db = record {
  providers = empty_table;
  keys = empty_table;
  models = empty_table;
  groups = empty_table;
  members = empty_table;
  rules = empty_table;
  targets = empty_table;
}

module _ {ℓ} {A : Type ℓ} where
  -- INSERT: the row is given the next id.
  abbrev pub insert_row : (ℕ → A) → Table A → Table A
  insert_row row t = record { rows = t.rows ++ row (t.last_id + 1) ∷ []; last_id = t.last_id + 1 }

  -- DELETE … WHERE
  abbrev pub delete_where : (A → Bool) → Table A → Table A
  delete_where p t = record t { rows = where_ (λ r. not (p r)) t.rows }

  abbrev pub with_rows : List A → Table A → Table A
  with_rows rs t = record t { rows = rs }

  -- COALESCE(MAX(column), -1) + 1
  abbrev pub next_position : (A → ℕ) → List A → ℕ
  next_position f [] = 0
  next_position f (x ∷ xs) = max (f x + 1) (next_position f xs)

abbrev pub same_target : TargetType → TargetType → Bool
same_target group group = Bool.true
same_target model model = Bool.true
same_target _ _ = Bool.false
