-- ===== src/Auth/Handlers.antt =====
-- The login, the first set-up and the check in front of every request (internal/httpapi/auth.go).
-- A body that is not the expected JSON is none; the database answers; a handler whose client goes away while
-- it waits for a login slot does nothing, and is left out. The token of a new session is `drawn`.
pub mod Guarded
use pogu.Prelude.{
  ℕ, List, [], Option, none, some, Bool, true, false, ◌&&◌, ◌||◌, not, if◌then◌else◌, Text, codes,
  eq_text, take,
}
use pogu.Service.Types.{Result, ok, err, Error, validation, already_exists}
use pogu.Auth.Sessions.{
  Accounts, day, validate_session, create_session, delete_session, check_admin_password,
  initialize_admin,
}
use pogu.Auth.Throttle.{Attempts, allow_login, record_login_failure, clear_login_failures}

pub record Gate : Type 0 where
  pub setup_token : Text
  pub setup_active : Bool
  pub attempts : Attempts
  pub accounts : Accounts

pub data Passage : Type 0 where
  -- the request goes on to its handler
  passed setup_required_conflict setup_required_unavailable authentication_required : Passage

-- What a handler answers: the session's cookie, or an error.
pub data Answer : Type 0 where
  authenticated : Text → Answer
  bad_body setup_pending too_many invalid_credentials already_initialized invalid_setup_token :
      Answer
  bad_password setup_unavailable : Answer

abbrev pub setup_path : Text
setup_path = codes "/api/auth/setup"

abbrev pub login_path : Text
login_path = codes "/api/auth/login"

abbrev pub under_api : Text → Bool
under_api path = eq_text (take 5 path) (codes "/api/")

abbrev pub under_v1 : Text → Bool
under_v1 path = eq_text (take 4 path) (codes "/v1/")

unfoldable pub enable_setup : Gate → Text → Gate
enable_setup g token = record g { setup_token = token; setup_active = true }

abbrev pub end_setup : Gate → Gate
end_setup g = record g { setup_token = []; setup_active = false }

abbrev pub count_failure : Gate → ℕ → Text → Gate
count_failure g now identity = record g { attempts = record_login_failure g.attempts now identity }

module _ (hash_token : Text → Text) where
  -- The cookie of the request, where it has one.
  unfoldable pub valid_session : Gate → ℕ → Option Text → Bool × Gate
  valid_session g now none = (false, g)
  valid_session g now (some token) =
      let (valid, accounts) = validate_session hash_token g.accounts now token in
      (valid, record g { accounts = accounts })

  unfoldable pub auth_middleware : Gate → ℕ → Text → Option Text → Passage × Gate
  unfolding valid_session
  auth_middleware g now path cookie =
      let (valid, checked) = valid_session g now cookie in
      if g.setup_active
      then (
        if eq_text path setup_path
            then passed
            else if under_api path
            then setup_required_conflict
            else if under_v1 path
            then setup_required_unavailable
            else passed,
        g,
      )
      else if under_api path && not (eq_text path login_path) && not (eq_text path setup_path)
      then (if valid then passed else authentication_required, checked)
      else (passed, g)

  unfoldable pub logout : Gate → Option Text → Gate
  logout g none = g
  logout g (some token) = record g { accounts = delete_session hash_token g.accounts token }

module _ (hash_token : Text → Text) (text_le : ℕ → ℕ → Bool) where
  -- A success forgets the failures of the client and makes a session.
  abbrev pub admit : Gate → ℕ → Text → Text → Gate
  admit g now identity drawn = record g {
    attempts = clear_login_failures g.attempts identity;
    accounts = create_session hash_token text_le g.accounts now day drawn;
  }

  unfoldable pub login : (Text → Text → Bool) → Gate → ℕ → Text → Option Text → Text → Answer × Gate
  login check_password g now identity none drawn = (bad_body, g)
  login check_password g now identity (some password) drawn =
      if g.setup_active
      then (setup_pending, g)
      else if not (allow_login g.attempts now identity)
      then (too_many, g)
      else if check_admin_password check_password g.accounts password
      then (authenticated drawn, admit g now identity drawn)
      else (invalid_credentials, count_failure g now identity)

  unfoldable pub complete_setup :
      (Text → Text) → Gate → ℕ → Text → Option (Text × Text) → Text → Answer × Gate
  complete_setup hash_password g now identity none drawn = (bad_body, g)
  complete_setup hash_password g now identity (some (token, password)) drawn =
      if not (allow_login g.attempts now identity)
      then (too_many, g)
      else if not g.setup_active
      then (already_initialized, g)
      else if eq_text token [] || not (eq_text token g.setup_token)
      then (invalid_setup_token, count_failure g now identity)
      else elim (initialize_admin hash_password g.accounts password) [
        | err validation ↦ (bad_password, g)
        | err already_exists ↦ (already_initialized, end_setup g)
        | err _ ↦ (setup_unavailable, g)
        | ok accounts ↦ (
          authenticated drawn,
          admit (end_setup (record g { accounts = accounts })) now identity drawn,
        )
      ]
