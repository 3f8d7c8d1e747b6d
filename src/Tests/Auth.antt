-- ===== src/Tests/Auth.antt =====
-- Runs of the sessions, the client keys, the login throttle and the set-up.
use pogu.Prelude.{
  ℕ, ◌+◌, ◌*◌, ◌≡◌, ◌≢◌, refl, List, [], ◌∷◌, none, some, Bool, true, false, ltb, Text, codes,
  eq_text, trim_space, arith, ◌⊎◌, ◌↔◌,
}
use pogu.Store.{Table}
use pogu.Service.Types.{ok, err, unauthorized}
use pogu.Auth.Sessions.{
  Accounts, day, validate_session, create_session, set_admin_password, initialize_admin,
  check_admin_password, validate_session-create_session,
}
use pogu.Auth.ApiKeys.{
  ClientKeyRow, made_key, used_at, create_api_key, authenticate_api_key, revoke_api_key,
  get_api_key,
}
use pogu.Auth.ApiKeys.Admission.{revoke_ends, here, there, authenticated, authenticate-create}
use pogu.Auth.Throttle.{second, allow_login, clear_login_failures}
use pogu.Auth.Throttle.Penalty.{wait, record_all, allow_login-record_all}
use pogu.Auth.Throttle.Reopening.{login_reopens}
use pogu.Auth.Handlers.{
  Gate, passed, authenticated, setup_path, login_path, under_api, valid_session, auth_middleware,
  login, complete_setup,
}
use pogu.Auth.Handlers.Guarded.{auth_middleware_guards, login_admits, complete_setup_once}

abbrev hash : Text → Text
hash t = 35 ∷ t

abbrev checks : Text → Text → Bool
checks password h = eq_text (hash password) h

abbrev nobody : Accounts
nobody = record { password_hash = none; sessions = [] }

abbrev secret : Text
secret = codes "correct horse battery"

abbrev token : Text
token = codes "drawn-token"

validate_session-create_session_example :
    (validate_session hash (create_session hash (λ a b. ltb a b) nobody 5 0 token) 7 token).0
    ≡ ltb 7 (5 + day)
validate_session-create_session_example =
    validate_session-create_session hash (λ a b. ltb a b) nobody 5 0 7 token
      (λ e. ground (arith, e)) refl

abbrev no_keys : Table ClientKeyRow
no_keys = record { rows = []; last_id = 0 }

abbrev drawn_key : Text
drawn_key = codes "abcdefghijklmnopqrstuvwxyz"

abbrev plain : Text
plain = codes "sk-pogu-abcdefghijklmnopqrstuvwxyz"

abbrev first_key : ClientKeyRow
first_key = made_key 9 (codes "ci") (hash plain) 1

abbrev one_key : Table ClientKeyRow
one_key = record { rows = first_key ∷ []; last_id = 1 }

created : create_api_key hash no_keys 9 (codes "ci") drawn_key ≡ ok (first_key, plain, one_key)
unfolding create_api_key get_api_key trim_space eq_text
created = refl

authenticate-create_example :
    (t : Table ClientKeyRow) × (authenticate_api_key hash (λ a b. ltb a b) one_key 12 plain
      ≡ ok (used_at 12 first_key, t))
authenticate-create_example =
    authenticate-create hash (λ a b. ltb a b) no_keys one_key 9 12 (codes "ci") drawn_key plain
      first_key (omega arith) tt created

-- A revoked key is unauthorized, and the other stays.
abbrev second_plain : Text
second_plain = codes "sk-pogu-zyxwvutsrqponmlkjihgfedcba"

abbrev second_key : ClientKeyRow
second_key = made_key 10 (codes "dev") (hash second_plain) 2

abbrev two_keys : Table ClientKeyRow
two_keys = record { rows = first_key ∷ second_key ∷ []; last_id = 2 }

abbrev revoked_first : ClientKeyRow
revoked_first = record first_key { revoked_at = some 11 }

abbrev one_left : Table ClientKeyRow
one_left = record { rows = revoked_first ∷ second_key ∷ []; last_id = 2 }

abbrev one_used : Table ClientKeyRow
one_used = record { rows = revoked_first ∷ used_at 13 second_key ∷ []; last_id = 2 }

revoked : revoke_api_key two_keys 11 1 ≡ ok one_left
unfolding revoke_api_key
revoked = refl

admitted :
    authenticate_api_key hash (λ a b. ltb a b) one_left 13 second_plain
    ≡ ok (used_at 13 second_key, one_used)
unfolding authenticate_api_key get_api_key eq_text
admitted = refl

refused : authenticate_api_key hash (λ a b. ltb a b) one_left 13 plain ≡ err unauthorized
unfolding authenticate_api_key get_api_key eq_text
refused = refl

abbrev used_again : Table ClientKeyRow
used_again = record { rows = revoked_first ∷ used_at 14 second_key ∷ []; last_id = 2 }

admitted_again :
    authenticate_api_key hash (λ a b. ltb a b) one_used 14 second_plain
    ≡ ok (used_at 14 second_key, used_again)
unfolding authenticate_api_key get_api_key eq_text
admitted_again = refl

-- Behind the revocation the other key is used twice.
revoke_ends_example : (used_at 14 second_key).id ≢ 1
revoke_ends_example =
    revoke_ends hash (λ a b. ltb a b) two_keys one_left one_used used_again 1 11 14 second_plain
      (used_at 14 second_key) (omega arith, (omega arith, tt)) revoked
      (there here
        (authenticated one_left one_used 13 second_plain (used_at 13 second_key) admitted))
      admitted_again

abbrev host : Text
host = codes "10.0.0.7"

-- Six failures of the client between two of another.
abbrev failures : List (ℕ × Text)
failures =
    (1, codes "10.0.0.8")
    ∷ (2, host)
    ∷ (3, host)
    ∷ (4, host)
    ∷ (5, host)
    ∷ (6, host)
    ∷ (7, host)
    ∷ (8, codes "10.0.0.8")
    ∷ []

allow_login-record_all_example :
    allow_login (record_all [] failures) (7 + 2 * second) host ≡ ltb (7 + wait 6) (7 + 2 * second)
unfolding eq_text
allow_login-record_all_example =
    allow_login-record_all [] failures host (7 + 2 * second) (omega arith) refl

login_reopens_example : allow_login (record_all [] failures) (9 + 60 * second) host ≡ true
login_reopens_example =
    login_reopens failures 8 (9 + 60 * second) host
      (
        omega arith,
        (
          omega arith,
          (
            omega arith,
            (omega arith, (omega arith, (omega arith, (omega arith, (omega arith, tt))))),
          ),
        ),
      )
      (omega arith)

abbrev signed_in : Accounts
signed_in = create_session hash (λ a b. ltb a b) nobody 5 0 token

changed :
    set_admin_password hash signed_in secret
    ≡ ok (record { password_hash = some (hash secret); sessions = [] })
unfolding set_admin_password
changed = refl

abbrev fresh : Gate
fresh = record {
  setup_token = codes "5e7u9";
  setup_active = true;
  attempts = [];
  accounts = nobody;
}

abbrev set_up : Gate
set_up = record {
  setup_token = [];
  setup_active = false;
  attempts = [];
  accounts = record {
    password_hash = some (hash secret);
    sessions = record { token_hash = hash token; expires_at = 3 + day } ∷ [];
  };
}

ends_setup :
    complete_setup hash (λ a b. ltb a b) hash fresh 3 host (some (codes "5e7u9", secret)) token
    ≡ (authenticated token, set_up)
unfolding complete_setup initialize_admin create_session allow_login clear_login_failures eq_text
ends_setup = refl

complete_setup_once_example :
    (codes "5e7u9" ≡ fresh.setup_token)
    × (codes "5e7u9" ≢ [])
    × (fresh.accounts.password_hash ≡ none)
    × (set_up.accounts.password_hash ≡ some (hash secret))
    × ((complete_setup hash
          (λ a b. ltb a b)
          hash
          set_up
          4
          host
          (some (codes "5e7u9", secret))
          token).0
        ≢ authenticated token)
    × ((complete_setup hash
          (λ a b. ltb a b)
          hash
          set_up
          4
          host
          (some (codes "5e7u9", secret))
          token).1
        ≡ set_up)
complete_setup_once_example =
    complete_setup_once hash hash (λ a b. ltb a b) fresh set_up 3 4 host host (codes "5e7u9") secret
      token token token token (some (codes "5e7u9", secret)) ends_setup

login_admits_example :
    (((login hash (λ a b. ltb a b) checks set_up 5 host (some secret) token).0
        ≡ authenticated token)
      ↔ ((check_admin_password checks set_up.accounts secret ≡ true)
          × (allow_login set_up.attempts 5 host ≡ true)
          × (set_up.setup_active ≡ false)
          × (token ≡ token)))
    × (((login hash (λ a b. ltb a b) checks set_up 5 host (some secret) token).0
          ≢ authenticated token)
        → (login hash (λ a b. ltb a b) checks set_up 5 host (some secret) token).1.accounts
          ≡ set_up.accounts)
login_admits_example = login_admits hash (λ a b. ltb a b) checks set_up 5 host secret token token

abbrev models_path : Text
models_path = codes "/api/models"

passes : (auth_middleware hash set_up 6 models_path (some token)).0 ≡ passed
unfolding auth_middleware valid_session validate_session eq_text
passes = refl

under : under_api models_path ≡ true
unfolding eq_text
under = refl

auth_middleware_guards_example :
    (models_path ≡ setup_path)
    ⊎ ((set_up.setup_active ≡ false)
        × ((models_path ≡ login_path) ⊎ ((valid_session hash set_up 6 (some token)).0 ≡ true)))
auth_middleware_guards_example =
    auth_middleware_guards hash set_up 6 models_path (some token) under passes
