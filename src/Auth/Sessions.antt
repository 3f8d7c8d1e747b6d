-- ===== src/Auth/Sessions.antt =====
-- Sessions (CreateSession, ValidateSession, DeleteSession of internal/service/auth.go) and the
-- administrator's password (internal/service/admin.go). Times are nanoseconds. `hash_token` and
-- the password functions are those of internal/crypto; a token and a salt are what the random
-- source drew; `text_le` compares two times by their RFC 3339 texts, as the database does.
use pogu.Prelude.{
  ℕ, ◌+◌, ◌*◌, ◌≡◌, ◌≢◌, refl, List, [], ◌∷◌, ◌++◌, Option, none, some, Bool, true, false, not,
  ◌==◌, ltb, leb, if◌then◌else◌, arith, Text, eq_text, eq_text_iff, length, where_, find, find-snoc,
  subst,
}
use pogu.Service.Types.{
  Result, ok, err, validation, already_exists, guard, ◌>>◌, >>=-eq-ok, ok-injective,
}

pub record SessionRow : Type 0 where
  pub token_hash : Text
  pub expires_at : ℕ

-- The tables admin and sessions.
pub record Accounts : Type 0 where
  pub password_hash : Option Text
  pub sessions : List SessionRow

abbrev pub day : ℕ
day = 24 * 3600 * 1000000000

abbrev pub min_password_runes : ℕ
min_password_runes = 12

module _ (hash_token : Text → Text) where
  abbrev pub of_token : Text → SessionRow → Bool
  of_token token r = eq_text r.token_hash (hash_token token)

  -- DELETE FROM sessions WHERE token_hash=?
  unfoldable pub delete_session : Accounts → Text → Accounts
  delete_session s token = record s { sessions = where_ (λ r. not (of_token token r)) s.sessions }

  -- A session that has expired is deleted as it is looked at.
  unfoldable pub validate_session : Accounts → ℕ → Text → Bool × Accounts
  unfolding delete_session
  validate_session s now token =
      if eq_text token [] then (false, s) else elim (find (of_token token) s.sessions) [
        | none ↦ (false, s)
        | some r ↦ if ltb now r.expires_at then (true, s) else (false, delete_session s token)
      ]

  -- The token is a primary key by its hash: a collision would fail.
  unfoldable pub create_session : (ℕ → ℕ → Bool) → Accounts → ℕ → ℕ → Text → Accounts
  create_session text_le s now ttl token = record s {
    sessions =
        where_ (λ r. not (text_le r.expires_at now)) s.sessions
        ++ record {
          token_hash = hash_token token;
          expires_at = now + (if ttl == 0 then day else ttl);
        }
          ∷ [];
  }

module _ (hash_password : Text → Text) where
  unfoldable pub set_admin_password : Accounts → Text → Result Accounts
  set_admin_password s password = do
    guard (leb min_password_runes (length password)) validation
    ok (record { password_hash = some (hash_password password); sessions = [] })

  unfoldable pub initialize_admin : Accounts → Text → Result Accounts
  initialize_admin s password = do
    guard (leb min_password_runes (length password)) validation
    elim s.password_hash [
      | some hash ↦ err already_exists
      | none ↦ ok (record s { password_hash = some (hash_password password) })
    ]

unfoldable pub check_admin_password : (Text → Text → Bool) → Accounts → Text → Bool
check_admin_password check_password s password = elim s.password_hash [
  | none ↦ false
  | some hash ↦ check_password password hash
]

find-where_none {ℓ} :
    {A : Type ℓ} (p q : A → Bool) (xs : List A) → find p xs ≡ none → find p (where_ q xs) ≡ none
find-where_none p q [] h = refl
find-where_none p q (x ∷ xs) h = ground (arith, h, find-where_none p q xs)

find-where_not {ℓ} :
    {A : Type ℓ} (p : A → Bool) (xs : List A) → find p (where_ (λ x. not (p x)) xs) ≡ none
find-where_not p [] = refl
find-where_not p (x ∷ xs) = ground (arith, find-where_not p xs)

-- A session that is created with a token which is not in use is valid until its lifetime is over, which is
-- a day where none is given, and from then on it is not.
pub validate_session-create_session :
    (hash_token : Text → Text) (text_le : ℕ → ℕ → Bool) (s : Accounts) (now ttl later : ℕ)
    (token : Text)
    → token ≢ []
    → find (of_token hash_token token) s.sessions ≡ none
    → (validate_session hash_token
        (create_session hash_token text_le s now ttl token)
        later
        token).0
      ≡ ltb later (now + (if ttl == 0 then day else ttl))
unfolding validate_session create_session
validate_session-create_session hash_token text_le s now ttl later token named unused = ground (
  arith,
  eq_text_iff token [],
  eq_text_iff (hash_token token) (hash_token token),
  find-snoc (of_token hash_token token) (where_ (λ r. not (text_le r.expires_at now)) s.sessions)
      (record { token_hash = hash_token token; expires_at = now + (if ttl == 0 then day else ttl) })
      (find-where_none (of_token hash_token token) (λ r. not (text_le r.expires_at now)) s.sessions
        unused)
      ((eq_text_iff (hash_token token) (hash_token token)).1 refl),
)

-- Behind DeleteSession the token is not valid, at any time, and a change of the administrator's password
-- leaves no token valid.
session_ends :
    (hash_token hash_password : Text → Text) (s : Accounts) (now : ℕ) (token : Text)
    → ((validate_session hash_token (delete_session hash_token s token) now token).0 ≡ false)
      × ((password : Text) (s' : Accounts)
          → set_admin_password hash_password s password ≡ ok s'
          → (validate_session hash_token s' now token).0 ≡ false)
unfolding validate_session delete_session set_admin_password
session_ends hash_token hash_password s now token = (
  ground (arith, find-where_not (of_token hash_token token) s.sessions),
  λ password s' h.
      let (_, _, made) =
        >>=-eq-ok (guard (leb min_password_runes (length password)) validation) _ h in
      subst (λ x. (validate_session hash_token x now token).0 ≡ false) (ok-injective made)
        (ground (arith, eq_text token [])),
)
