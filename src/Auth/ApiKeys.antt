-- ===== src/Auth/ApiKeys.antt =====
-- The gateway's client keys (CreateAPIKey, RevokeAPIKey, AuthenticateAPIKey of internal/service/auth.go).
-- A key is a text of bytes. `hash_token` is crypto.HashToken; `text_lt` compares two times by their
-- RFC 3339 texts, as the database does; `drawn` is the base 64 text of the 32 random bytes.
pub mod Admission
use pogu.Prelude.{
  ℕ, ◌+◌, ◌≤◌, ◌≡◌, ◌≢◌, refl, subst, List, [], ◌∷◌, ◌++◌, Option, none, some, Bool, true, false,
  ◌&&◌, not, ◌==◌, leb, if◌then◌else◌, arith, Text, codes, eq_text, eq_text_iff, length, take,
  trim_space, find, any, update_where, All,
}
use pogu.Store.{Table, insert_row, with_rows}
use pogu.Service.Types.{
  Result, ok, err, validation, not_found, unauthorized, constraint_failed, guard, or_fail, ◌>>◌,
  ◌>>=◌, >>=-eq-ok, or_fail-eq-ok, guard-eq-ok, ok-injective,
}

pub record ClientKeyRow : Type 0 where
  pub id : ℕ
  pub name : Text
  pub key_hash : Text
  pub last_used_at : Option ℕ
  pub expires_at : Option ℕ
  pub revoked_at : Option ℕ
  pub created_at : ℕ

abbrev pub key_prefix : Text
key_prefix = codes "sk-pogu-"

abbrev pub max_key_name_runes : ℕ
max_key_name_runes = 200

abbrev pub is_none {ℓ} : {A : Type ℓ} → Option A → Bool
is_none none = true
is_none (some a) = false

unfoldable pub get_api_key : Table ClientKeyRow → ℕ → Result ClientKeyRow
get_api_key t id = or_fail (find (λ k. k.id == id) t.rows) not_found

abbrev pub made_key : ℕ → Text → Text → ℕ → ClientKeyRow
made_key now name hash id = record {
  id = id;
  name = trim_space name;
  key_hash = hash;
  last_used_at = none;
  expires_at = none;
  revoked_at = none;
  created_at = now;
}

abbrev pub used_at : ℕ → ClientKeyRow → ClientKeyRow
used_at now k = record k { last_used_at = some now }

module _ (hash_token : Text → Text) where
  abbrev pub of_plaintext : Text → ClientKeyRow → Bool
  of_plaintext plaintext k = eq_text k.key_hash (hash_token plaintext)

  -- The key, its plaintext, and the table with it.
  unfoldable pub create_api_key :
      Table ClientKeyRow → ℕ → Text → Text → Result (ClientKeyRow × Text × Table ClientKeyRow)
  unfolding get_api_key
  create_api_key t now name drawn = do
    guard (not (eq_text (trim_space name) [])) validation
    guard (leb (length (trim_space name)) max_key_name_runes) validation
    guard (not (any (of_plaintext (key_prefix ++ drawn)) t.rows)) constraint_failed
    let made = insert_row (made_key now name (hash_token (key_prefix ++ drawn))) t
    k ← get_api_key made made.last_id
    ok (k, key_prefix ++ drawn, made)

  -- The condition of the query of AuthenticateAPIKey.
  abbrev pub admits : (ℕ → ℕ → Bool) → ℕ → Text → ClientKeyRow → Bool
  admits text_lt now plaintext k =
      of_plaintext plaintext k
      && is_none k.revoked_at
      && elim k.expires_at [ none ↦ true | some at ↦ text_lt now at ]

  unfoldable pub authenticate_api_key :
      (ℕ → ℕ → Bool) → Table ClientKeyRow → ℕ → Text → Result (ClientKeyRow × Table ClientKeyRow)
  unfolding get_api_key
  authenticate_api_key text_lt t now plaintext = do
    guard (eq_text (take 8 plaintext) key_prefix && leb 28 (length plaintext)) unauthorized
    k ← or_fail (find (admits text_lt now plaintext) t.rows) unauthorized
    let used = with_rows (update_where (λ r. r.id == k.id) (used_at now) t.rows) t
    got ← get_api_key used k.id
    ok (got, used)

-- COALESCE(revoked_at, now)
abbrev pub revoke : ℕ → ClientKeyRow → ClientKeyRow
revoke now k = record k { revoked_at = elim k.revoked_at [ none ↦ some now | some at ↦ some at ] }

unfoldable pub revoke_api_key : Table ClientKeyRow → ℕ → ℕ → Result (Table ClientKeyRow)
revoke_api_key t now id = do
  guard (any (λ k. k.id == id) t.rows) not_found
  ok (with_rows (update_where (λ k. k.id == id) (revoke now) t.rows) t)
