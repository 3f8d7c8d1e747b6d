-- ===== src/Service/Settings.antt =====
-- The settings table and internal/service/settings.go. The values of a key are written by an upsert.
pub mod Caveman
pub mod Levels
use pogu.Prelude.{
  List, [], ◌∷◌, Option, none, some, Bool, true, false, not, leb, length, find, where_,
  if◌then◌else◌, Text, codes, eq_text, trim_space,
}
use pogu.Service.Types.{Result, ok, err, validation, unauthorized, guard, ◌>>◌}
use pogu.Auth.Sessions.{Accounts, check_admin_password, set_admin_password}

abbrev pub Settings : Type 0
Settings = List (Text × Text)

-- SELECT value FROM settings WHERE key=?, the empty text where there is none
unfoldable pub setting : Settings → Text → Text
setting t key = elim (find (λ (row : Text × Text). eq_text row.0 key) t) [
  | none ↦ []
  | some (_, value) ↦ value
]

-- INSERT INTO settings … ON CONFLICT(key) DO UPDATE
unfoldable pub set_setting : Text → Text → Settings → Settings
set_setting key value t = (key, value) ∷ where_ (λ (row : Text × Text). not (eq_text row.0 key)) t

abbrev pub flag_text : Bool → Text
flag_text enabled = if enabled then codes "1" else codes "0"

abbrev pub global_prompt : Text
global_prompt = codes "global_system_prompt"

abbrev pub global_prompt_enabled : Text
global_prompt_enabled = codes "global_system_prompt_enabled"

unfoldable pub get_global_prompt : Settings → Text × Bool
unfolding setting
get_global_prompt t =
    (setting t global_prompt, eq_text (setting t global_prompt_enabled) (codes "1"))

unfoldable pub set_global_prompt : Settings → Text → Bool → Result Settings
unfolding set_setting
set_global_prompt t text enabled = do
  guard (leb (length text) 16384) validation
  ok (set_setting global_prompt_enabled (flag_text enabled) (set_setting global_prompt text t))

unfoldable pub active_prompt : Text → Bool → Text
active_prompt text enabled =
    if enabled then (if eq_text (trim_space text) [] then [] else text) else []

unfoldable pub change_admin_password :
    (Text → Text → Bool) → (Text → Text) → Accounts → Text → Text → Result Accounts
unfolding check_admin_password set_admin_password
change_admin_password check_password hash_password s current next = do
  guard (check_admin_password check_password s current) unauthorized
  set_admin_password hash_password s next
