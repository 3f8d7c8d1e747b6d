-- ===== src/Service/Models.antt =====
-- The operations of internal/service/models.go that change models, and DeleteProvider (providers.go).
use pogu.Prelude.{ℕ, ◌+◌, [], Bool, ◌&&◌, not, ◌==◌, Text, any, update_where, eq_text}
use pogu.Store.{Db, ModelRow, TargetType, insert_row, delete_where, with_rows}
use pogu.Service.Types.{
  Result, ok, validation, already_exists, not_found, guard, ◌>>=◌, ◌>>◌, Service, valid_scheme,
}
use pogu.Service.Validate.{validate_model_name}
use pogu.Service.Routing.{get_model, get_provider}
use pogu.Service.PromptRules.{delete_prompt_targets_for, commit}

-- UNIQUE (provider_id, name), seen from the row of the given id
abbrev model_name_free : Db → ℕ → ℕ → Text → Bool
model_name_free db provider_id id name = not (
    any (λ m. m.provider_id == provider_id && eq_text m.name name && not (m.id == id))
      db.models.rows)

unfoldable pub create_model : Db → ℕ → Text → Bool → Result (ModelRow × Db)
unfolding validate_model_name get_model
create_model db provider_id name enabled = do
  validate_model_name name
  guard (any (λ p. p.id == provider_id) db.providers.rows) not_found
  guard (model_name_free db provider_id (db.models.last_id + 1) name) already_exists
  let db' : Db = record db {
    models =
        insert_row
          (λ id. record {
            id = id;
            provider_id = provider_id;
            name = name;
            scheme = [];
            enabled = enabled;
          })
          db.models;
  }
  m ← get_model db' (db.models.last_id + 1)
  ok (m, db')

unfoldable pub update_model : Db → ℕ → Text → Bool → Result (ModelRow × Db)
unfolding validate_model_name get_model
update_model db id name enabled = do
  validate_model_name name
  old ← get_model db id
  guard (model_name_free db old.provider_id id name) already_exists
  let db' : Db = record db {
    models =
        with_rows
          (update_where (λ m. m.id == id) (λ m. record m { name = name; enabled = enabled })
            db.models.rows)
          db.models;
  }
  m ← get_model db' id
  ok (m, db')

-- What DeleteModel deletes: the prompt targets of the model go with it, and its memberships cascade.
unfoldable pub without_model : Db → ℕ → Db
unfolding delete_prompt_targets_for
without_model db id =
    let db' = delete_prompt_targets_for (TargetType.model, id) db in
    record db' {
      models = delete_where (λ r. r.id == id) db'.models;
      members = delete_where (λ gm. gm.model_id == id) db'.members;
    }

-- The transaction of DeleteModel
unfoldable pub delete_model_in : Db → ℕ → Result Db
unfolding without_model
delete_model_in db id = do
  guard (any (λ r. r.id == id) db.models.rows) not_found
  ok (without_model db id)

unfoldable pub delete_model : Service → ℕ → Result (Unit {0}) × Service
unfolding delete_model_in commit
delete_model s id = commit s (delete_model_in s.db id)

unfoldable pub set_model_scheme : Db → ℕ → Text → Result Db
unfolding valid_scheme
set_model_scheme db id scheme = do
  guard (valid_scheme scheme) validation
  guard (any (λ m. m.id == id) db.models.rows) not_found
  ok (record db {
    models =
        with_rows
          (update_where (λ m. m.id == id) (λ m. record m { scheme = scheme }) db.models.rows)
          db.models;
  })

-- DELETE FROM providers, which cascades to the keys and the models of the provider, and from the models
-- to their memberships.
unfoldable pub delete_provider : Db → ℕ → Result Db
unfolding get_provider
delete_provider db id = do
  get_provider db id
  ok (record db {
    providers = delete_where (λ p. p.id == id) db.providers;
    keys = delete_where (λ k. k.provider_id == id) db.keys;
    models = delete_where (λ m. m.provider_id == id) db.models;
    members =
        delete_where (λ gm. any (λ m. m.id == gm.model_id && m.provider_id == id) db.models.rows)
          db.members;
  })
