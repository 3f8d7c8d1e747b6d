-- ===== src/Auth/Handlers/Guarded.antt =====
-- What the login, the set-up and the check in front of the requests let through
-- (internal/httpapi/auth.go).
use pogu.Prelude.{
  ℕ, ◌≡◌, ◌≢◌, ◌⊎◌, ◌↔◌, inl, inr, refl, Option, none, some, Bool, true, false, Bool-cases, Text,
  [], eq_text, eq_text_iff, arith,
}
use pogu.Auth.Sessions.{create_session, check_admin_password, initialize_admin}
use pogu.Auth.Throttle.{allow_login}
use pogu.Auth.Handlers.{
  Gate, passed, authenticated, setup_path, login_path, under_api, valid_session, auth_middleware,
  login, complete_setup,
}

-- A request under /api/ that goes on to its handler is the set-up itself, or no set-up is pending and it is
-- the login or carries the cookie of a valid session.
pub auth_middleware_guards :
    (hash_token : Text → Text) (g : Gate) (now : ℕ) (path : Text) (cookie : Option Text)
    → under_api path ≡ true
    → (auth_middleware hash_token g now path cookie).0 ≡ passed
    → (path ≡ setup_path)
      ⊎ ((g.setup_active ≡ false)
          × ((path ≡ login_path) ⊎ ((valid_session hash_token g now cookie).0 ≡ true)))
unfolding auth_middleware
auth_middleware_guards hash_token g now path cookie api h =
    let at_setup : (eq_text path setup_path ≡ true) → path ≡ setup_path =
      (eq_text_iff path setup_path).0 in
    let at_login : (eq_text path login_path ≡ true) → path ≡ login_path =
      (eq_text_iff path login_path).0 in
    elim (Bool-cases (eq_text path setup_path)) [
      | inl setup ↦ inl (at_setup setup)
      | inr elsewhere ↦ elim (Bool-cases g.setup_active) [
        | inl pending ↦ ground (arith, h, api, elsewhere, pending)
        | inr done ↦ elim (Bool-cases (eq_text path login_path)) [
          | inl logs_in ↦ inr (done, inl (at_login logs_in))
          | inr not_login ↦ inr (done, inr (ground (arith, h, api, elsewhere, done, not_login)))
        ]
      ]
    ]

-- A login succeeds exactly with the administrator's password, from a client that is not blocked, while no
-- set-up is pending; then it answers with the new session's token, and otherwise no session is made.
pub login_admits :
    (hash_token : Text → Text) (text_le : ℕ → ℕ → Bool) (check_password : Text → Text → Bool)
    (g : Gate) (now : ℕ) (identity password drawn token : Text)
    → (((login hash_token text_le check_password g now identity (some password) drawn).0
          ≡ authenticated token)
        ↔ ((check_admin_password check_password g.accounts password ≡ true)
            × (allow_login g.attempts now identity ≡ true)
            × (g.setup_active ≡ false)
            × (drawn ≡ token)))
      × (((login hash_token text_le check_password g now identity (some password) drawn).0
            ≢ authenticated drawn)
          → (login hash_token text_le check_password g now identity
              (some password)
              drawn).1.accounts
            ≡ g.accounts)
unfolding login
login_admits hash_token text_le check_password g now identity password drawn token = (
  (
    λ h. (ground (arith, h), ground (arith, h), ground (arith, h), ground (arith, h)),
    λ h. ground (arith, h),
  ),
  λ h. ground (arith, h),
)

refuses :
    (hash_token hash_password : Text → Text) (text_le : ℕ → ℕ → Bool) (g : Gate) (now : ℕ)
    (identity : Text) (body : Option (Text × Text)) (drawn cookie : Text)
    → g.setup_active ≡ false
    → ((complete_setup hash_token text_le hash_password g now identity body drawn).0
        ≢ authenticated cookie)
      × ((complete_setup hash_token text_le hash_password g now identity body drawn).1 ≡ g)
unfolding complete_setup
refuses hash_token hash_password text_le g now identity none drawn cookie h =
    (λ e. ground (arith, e), refl)
refuses hash_token hash_password text_le g now identity (some (token, password)) drawn cookie h =
    (λ e. ground (arith, e, h), ground (arith, h))

completed :
    (hash_token hash_password : Text → Text) (text_le : ℕ → ℕ → Bool) (g g' : Gate) (now : ℕ)
    (identity token password drawn cookie : Text)
    → complete_setup hash_token text_le hash_password g now identity (some (token, password)) drawn
      ≡ (authenticated cookie, g')
    → (eq_text token g.setup_token ≡ true)
      × (eq_text token [] ≡ false)
      × (g.accounts.password_hash ≡ none)
      × (g'.setup_active ≡ false)
      × (g'.accounts.password_hash ≡ some (hash_password password))
unfolding complete_setup initialize_admin create_session
completed hash_token hash_password text_le g g' now identity token password drawn cookie h =
    (ground (arith, h), ground (arith, h), ground (arith, h), ground (arith, h), ground (arith, h))

-- The set-up succeeds only with the set-up token, which is not empty, and while no administrator exists. It
-- sets the password and ends the set-up: whatever request to complete it comes next is refused, and changes
-- nothing.
pub complete_setup_once :
    (hash_token hash_password : Text → Text) (text_le : ℕ → ℕ → Bool) (g g' : Gate) (now now' : ℕ)
    (identity identity' token password drawn drawn' cookie cookie' : Text)
    (body : Option (Text × Text))
    → complete_setup hash_token text_le hash_password g now identity (some (token, password)) drawn
      ≡ (authenticated cookie, g')
    → (token ≡ g.setup_token)
      × (token ≢ [])
      × (g.accounts.password_hash ≡ none)
      × (g'.accounts.password_hash ≡ some (hash_password password))
      × ((complete_setup hash_token text_le hash_password g' now' identity' body drawn').0
          ≢ authenticated cookie')
      × ((complete_setup hash_token text_le hash_password g' now' identity' body drawn').1 ≡ g')
complete_setup_once hash_token hash_password text_le g g' now now' identity identity' token password
      drawn drawn' cookie cookie' body h =
    let (same, named, first, over, made) =
      completed hash_token hash_password text_le g g' now identity token password drawn cookie h in
    let (refused, kept) =
      refuses hash_token hash_password text_le g' now' identity' body drawn' cookie' over in
    (
      (eq_text_iff token g.setup_token).0 same,
      λ e. ground (arith, named, (eq_text_iff token []).1 e),
      first,
      made,
      refused,
      kept,
    )
