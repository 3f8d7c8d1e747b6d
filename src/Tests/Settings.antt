-- ===== src/Tests/Settings.antt =====
-- Settings, the skill file and providers on concrete texts.
use pogu.Prelude.{
  ℕ, ◌≡◌, refl, [], ◌∷◌, Option, some, none, true, false, Text, codes, eq_text, trim_space, cut,
  length,
}
use pogu.Store.{Db, ProviderRow, anthropic, round_robin}
use pogu.Service.Types.{ok, err, validation, already_exists}
use pogu.Service.Providers.{ParsedUrl, create_provider, update_provider}
use pogu.Service.Settings.Caveman.{parse_caveman_skill}
use pogu.Service.Settings.Levels.{set_caveman_settings}
use pogu.Provider.Body.Chat.{join}
use pogu.Tests.{db}

abbrev skill_md : Text
skill_md = join (10 ∷ []) (
    codes "---"
    ∷ codes "name: caveman"
    ∷ codes "---"
    ∷ codes "Talk short."
    ∷ codes "## Intensity"
    ∷ codes "| Level | What |"
    ∷ codes "| **Full** | Drop articles. |"
    ∷ codes "| **lite** |  Keep grammar. | x |"
    ∷ codes "## Rules"
    ∷ codes "No filler."
    ∷ [])

parsed_skill :
    parse_caveman_skill skill_md
    ≡ some (record {
      leading_instruction = codes "Talk short.";
      levels = (codes "full", codes "Drop articles.") ∷ (codes "lite", codes "Keep grammar.") ∷ [];
      rules = codes "No filler.";
      auto_clarity = [];
      boundaries = [];
    })
unfolding parse_caveman_skill eq_text trim_space cut
parsed_skill = refl

abbrev url_parser : Text → Option ParsedUrl
url_parser s = some (record {
  scheme = codes "https";
  host = codes "example.org";
  has_user = false;
  raw_query = [];
  fragment = [];
})

abbrev plain_seal : ℕ → Text → Option Text
plain_seal draw secret = some secret

renamed :
    (d : Db) × (update_provider url_parser db 1
        (codes " Router ")
        (codes "anthropic")
        (codes "or")
        (codes "https://example.org//")
        false
        none
      ≡ ok (
        record {
          id = 1;
          name = codes "Router";
          type = anthropic;
          prefix = codes "or";
          base_url = codes "https://example.org";
          key_selection = round_robin;
          enabled = false;
        },
        d,
      ))
unfolding update_provider eq_text trim_space
renamed = (_, refl)

taken_prefix :
    create_provider url_parser
      (λ s. s)
      plain_seal
      db
      (codes "New")
      (codes "openai")
      (codes "or")
      (codes "https://example.org")
      []
      true
      none
    ≡ (err already_exists, db)
unfolding create_provider eq_text trim_space
taken_prefix = refl

keyed :
    (d : Db) × (p : ProviderRow) × (create_provider url_parser
        (λ s. s)
        plain_seal
        db
        (codes "New")
        (codes "openai")
        (codes "nw")
        (codes "https://example.org")
        (codes "sk")
        true
        none
      ≡ (ok p, d))
    × (length d.keys.rows ≡ 4)
unfolding create_provider eq_text trim_space
keyed = (_, _, refl, refl)

unknown_level :
    (set_caveman_settings
      (λ s. s)
      skill_md
      (record { settings = []; skill = none })
      true
      (codes "loud")).0
    ≡ err validation
unfolding set_caveman_settings eq_text trim_space cut
unknown_level = refl
