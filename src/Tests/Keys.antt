-- ===== src/Tests/Keys.antt =====
-- Keys made, imported and sealed.
use pogu.Prelude.{
  none, ℕ, ◌+◌, ◌≡◌, refl, List, [], ◌∷◌, ◌++◌, ◌^◌, Option, some, true, false, ◌<◌, Text, codes,
  any, map, length, eq_text, trim_space, cut, arith, All,
}
use pogu.Crypto.{mask_secret}
use pogu.Crypto.Password.{Number, natural, hash_password, check_password}
use pogu.Store.{Db, KeyRow}
use pogu.Service.Types.{ok}
use pogu.Service.KeyNames.{
  number_to_end, max_key_number, next_monotonic_key_name, next_monotonic_key_name_fresh,
}
use pogu.Service.Import.{ImportResult, import_provider_keys, create_provider_key, keys_of_provider}
use pogu.Service.Import.Commits.{IsFresh, import_provider_keys_commits}
use pogu.Tests.{db}

abbrev key_names : List Text
key_names = codes "Key 2" ∷ codes "spare" ∷ codes "Key 11" ∷ codes "Key 4x" ∷ []

next_name : next_monotonic_key_name key_names ≡ codes "Key 12"
unfolding next_monotonic_key_name
next_name = refl

few_names : max_key_number key_names + 1 < 2 ^ 63
unfolding max_key_number
few_names = omega arith

next_monotonic_key_name_fresh_example :
    any (eq_text (next_monotonic_key_name key_names)) key_names ≡ false
next_monotonic_key_name_fresh_example = next_monotonic_key_name_fresh key_names few_names

masked_keys :
    map mask_secret (codes "sk-abcdefgh1234" ∷ codes " abc " ∷ codes "abcdefghijklmnop" ∷ [])
    ≡ codes "sk-...1234" ∷ codes "****" ∷ codes "abc...mnop" ∷ []
unfolding mask_secret eq_text trim_space
masked_keys = refl

abbrev plain_seal : ℕ → Text → Option Text
plain_seal draw secret = some (secret ++ draw ∷ [])

abbrev pasted : Text
pasted =
    codes "second|sk-two"
    ++ 10 ∷ codes "sk-one"
    ++ 10 ∷ 10 ∷ codes "again|sk-two"
    ++ 10 ∷ codes "empty|"
    ++ 10 ∷ codes "a"
    ++ 10 ∷ codes "sk-three"

import_provider_keys_commits_example :
    (r : ImportResult) × (db' : Db) × (added : List KeyRow) × (import_provider_keys
        (λ s. s)
        plain_seal
        db
        1
        pasted
        true
      ≡ ok (r, db'))
    × (import_provider_keys (λ s. s) plain_seal db 1 pasted false ≡ ok (r, db))
    × (db'.keys.rows ≡ db.keys.rows ++ added)
    × (length added ≡ r.valid)
    × All (λ k. k.provider_id ≡ 1) added
    × IsFresh (map (λ k. k.secret_hash) (keys_of_provider db 1)) (map (λ k. k.secret_hash) added)
import_provider_keys_commits_example =
    import_provider_keys_commits (λ s. s) plain_seal (λ draw secret. (secret ++ draw ∷ [], refl)) db
      1 pasted refl

made_key :
    (k : KeyRow) × (db' : Db) × (create_provider_key (λ s. s) plain_seal db 1 [] (codes " new ")
      ≡ ok (k, db'))
    × (k.name ≡ codes "Key 4")
    × (k.sort_order ≡ 3)
unfolding create_provider_key eq_text trim_space
made_key = (_, _, refl, refl, refl)

imported :
    (r : ImportResult) × (import_provider_keys (λ s. s) plain_seal db 1 pasted false ≡ ok (r, db))
    × (r.valid ≡ 3)
    × (r.invalid ≡ 3)
unfolding import_provider_keys eq_text trim_space cut
imported = (_, refl, refl, refl)

abbrev plain_key : Text → Text → ℕ → ℕ → ℕ → ℕ → Text
plain_key password salt t m p n = codes "0123456789abcdef" ++ password

abbrev read_number : Text → Option Number
read_number s = elim (number_to_end s) [ none ↦ none | some n ↦ some (natural n) ]

abbrev stored_hash : Text
stored_hash = codes "$argon2id$v=19$m=65536,t=3,p=2$saltsalt$0123456789abcdefsecret"

hashed :
    hash_password plain_key (λ s. s) (λ s. some s) read_number (codes "secret") (codes "saltsalt")
    ≡ some stored_hash
unfolding hash_password eq_text
hashed = refl

checked :
    map
      (λ word. check_password plain_key (λ s. s) (λ s. some s) read_number word stored_hash)
      (codes "secret" ∷ codes "Secret" ∷ [])
    ≡ true ∷ false ∷ []
unfolding check_password eq_text cut number_to_end
checked = refl
