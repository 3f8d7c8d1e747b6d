-- ===== src/Service/Keys.antt =====
-- The operations of internal/service/provider_keys.go on keys that exist;
-- `decrypt` is crypto.Decrypt under the master key.
use pogu.Prelude.{
  ℕ, ◌+◌, List, [], ◌∷◌, Option, none, some, Bool, not, ◌==◌, Text, any, find, update_where,
  eq_text, trim_space, if◌then◌else◌,
}
use pogu.Store.{Db, KeyRow, delete_where, with_rows}
use pogu.Service.Types.{
  Result, ok, err, validation, not_found, decrypt_failed, guard, or_fail, ◌>>=◌, ◌>>◌,
}
use pogu.Service.Routing.{list_provider_keys, enabled_keys}

unfoldable pub get_provider_key : Db → ℕ → Result KeyRow
get_provider_key db id = or_fail (find (λ k. k.id == id) db.keys.rows) not_found

unfoldable pub update_provider_key : Db → ℕ → Text → Bool → Result (KeyRow × Db)
unfolding get_provider_key
update_provider_key db id name enabled = do
  guard (not (eq_text (trim_space name) [])) validation
  guard (any (λ k. k.id == id) db.keys.rows) not_found
  let db' : Db = record db {
    keys =
        with_rows
          (update_where (λ k. k.id == id)
            (λ k. record k { name = trim_space name; enabled = enabled }) db.keys.rows)
          db.keys;
  }
  k ← get_provider_key db' id
  ok (k, db')

unfoldable pub delete_provider_key : Db → ℕ → Result Db
delete_provider_key db id = do
  guard (any (λ k. k.id == id) db.keys.rows) not_found
  ok (record db { keys = delete_where (λ k. k.id == id) db.keys })

-- UPDATE provider_keys SET sort_order=? for each key of the new order
unfoldable pub renumber : ℕ → List KeyRow → List KeyRow → List KeyRow
renumber i [] rows = rows
renumber i (k ∷ ks) rows =
    renumber (i + 1) ks (update_where (λ r. r.id == k.id) (λ r. record r { sort_order = i }) rows)

unfoldable pub without_first : ℕ → List KeyRow → List KeyRow
without_first id [] = []
without_first id (k ∷ ks) = let rest = without_first id ks in if k.id == id then ks else k ∷ rest

-- The key of the id first, and the others in their order.
unfoldable pub moved_first : ℕ → List KeyRow → Option (List KeyRow)
unfolding without_first
moved_first id keys = elim (find (λ k. k.id == id) keys) [
  | none ↦ none
  | some target ↦ some (target ∷ without_first id keys)
]

-- SetProviderKeyPrimary; nothing is written where the key is first already.
unfoldable pub set_provider_key_primary : Db → ℕ → ℕ → Result Db
unfolding list_provider_keys moved_first renumber
set_provider_key_primary db provider_id key_id = elim (list_provider_keys db provider_id) [
  | [] ↦ err not_found
  | k ∷ ks ↦ if k.id == key_id then ok db else elim (moved_first key_id (k ∷ ks)) [
    | none ↦ err not_found
    | some reordered ↦
        ok (record db { keys = with_rows (renumber 0 reordered db.keys.rows) db.keys })
  ]
]

unfoldable pub touch_provider_key_used : Db → ℕ → ℕ → Db
touch_provider_key_used db now id = record db {
  keys =
      with_rows
        (update_where (λ k. k.id == id) (λ k. record k { last_used_at = some now }) db.keys.rows)
        db.keys;
}

module _ (decrypt : Text → Option Text) where
  unfoldable pub provider_key_secret : Db → ℕ → Result Text
  provider_key_secret db id = do
    k ← or_fail (find (λ k. k.id == id) db.keys.rows) not_found
    or_fail (decrypt k.encrypted_secret) decrypt_failed

  -- WHERE provider_id=? AND enabled=1 ORDER BY sort_order ASC, id ASC LIMIT 1
  unfoldable pub provider_primary_secret : Db → ℕ → Result Text
  unfolding enabled_keys
  provider_primary_secret db provider_id = elim (enabled_keys db provider_id) [
    | [] ↦ err not_found
    | k ∷ ks ↦ or_fail (decrypt k.encrypted_secret) decrypt_failed
  ]
