-- ===== src/Service/Providers.antt =====
-- CreateProvider and UpdateProvider (internal/service/providers.go) with the checks of validate.go. The URL parser of
-- net/url is a parameter.
use pogu.Prelude.{
  ℕ, ◌+◌, [], ◌∷◌, Option, none, some, Bool, false, ◌&&◌, ◌||◌, not, ◌==◌, leb, any, update_where,
  length, if◌then◌else◌, Text, codes, eq_text, trim_space,
}
use mathlib.Core.List.{reverse}
use pogu.Store.{Db, ProviderRow, ProviderType, KeySelection, first, insert_row, with_rows}
use pogu.Service.Types.{Result, ok, err, validation, already_exists, guard, ◌>>=◌, ◌>>◌}
use pogu.Service.Validate.{valid_provider_prefix, validate_provider_type, validate_group_selection}
use pogu.Service.Routing.{get_provider}
use pogu.Service.Import.{create_provider_key}

-- (u *url.URL), as far as it is looked at
pub record ParsedUrl : Type 0 where
  pub scheme : Text
  pub host : Text
  pub has_user : Bool
  pub raw_query : Text
  pub fragment : Text

trim_slashes_left : Text → Text
trim_slashes_left [] = []
trim_slashes_left (c ∷ s) = if c == b'/' then trim_slashes_left s else c ∷ s

-- strings.TrimRight(strings.TrimSpace(baseURL), "/")
unfoldable pub trimmed_base_url : Text → Text
unfolding trim_slashes_left
trimmed_base_url base_url = reverse (trim_slashes_left (reverse (trim_space base_url)))

-- The selection of the optional argument; none where it is left out or empty.
unfoldable pub asked_selection : Option Text → Result (Option KeySelection)
unfolding validate_group_selection
asked_selection none = ok none
asked_selection (some s) =
    if eq_text s [] then ok none else do ks ← validate_group_selection s; ok (some ks)

-- UNIQUE (prefix), seen from the row of the given id
abbrev pub prefix_free : Db → ℕ → Text → Bool
prefix_free db id prefix =
    not (any (λ p. eq_text p.prefix prefix && not (p.id == id)) db.providers.rows)

-- COALESCE of the asked and the present selection
abbrev selection_or : KeySelection → Option KeySelection → KeySelection
selection_or present none = present
selection_or present (some ks) = ks

module _ (parse_request_uri : Text → Option ParsedUrl) where
  unfoldable pub valid_base_url : Text → Bool
  valid_base_url base_url = elim (parse_request_uri (trim_space base_url)) [
    | none ↦ false
    | some u ↦
        (eq_text u.scheme (codes "http") || eq_text u.scheme (codes "https"))
        && not (eq_text u.host [])
        && not u.has_user
        && eq_text u.raw_query []
        && eq_text u.fragment []
  ]

  unfoldable pub validate_provider_name_type_url : Text → Text → Text → Result ProviderType
  unfolding valid_base_url validate_provider_type
  validate_provider_name_type_url name typ base_url = do
    guard (not (eq_text (trim_space name) []) && leb (length (trim_space name)) 200) validation
    t ← validate_provider_type typ
    guard (valid_base_url base_url) validation
    ok t

  unfoldable pub validate_provider_input : Text → Text → Text → Text → Result ProviderType
  unfolding validate_provider_name_type_url valid_provider_prefix
  validate_provider_input name typ prefix base_url = do
    t ← validate_provider_name_type_url name typ base_url
    guard (valid_provider_prefix prefix) validation
    ok t

  unfoldable pub update_provider :
      Db → ℕ → Text → Text → Text → Text → Bool → Option Text → Result (ProviderRow × Db)
  unfolding get_provider validate_provider_input trimmed_base_url asked_selection
  update_provider db id name typ prefix base_url enabled key_selection = do
    old ← get_provider db id
    t ←
        validate_provider_input (trim_space name) typ (trim_space prefix)
          (trimmed_base_url base_url)
    asked ← asked_selection key_selection
    guard (prefix_free db id (trim_space prefix)) already_exists
    let db' : Db = record db {
      providers =
          with_rows
            (update_where (λ p. p.id == id)
              (λ p. record p {
                name = trim_space name;
                type = t;
                prefix = trim_space prefix;
                base_url = trimmed_base_url base_url;
                key_selection = selection_or old.key_selection asked;
                enabled = enabled;
              })
              db.providers.rows)
            db.providers;
    }
    p ← get_provider db' id
    ok (p, db')

  -- What CreateProvider checks: the type and the selection of the new row, whose id is given.
  unfoldable pub checked_provider :
      Db → ℕ → Text → Text → Text → Text → Option Text → Result (ProviderType × Option KeySelection)
  unfolding validate_provider_input trimmed_base_url asked_selection
  checked_provider db id name typ prefix base_url key_selection = do
    t ←
        validate_provider_input (trim_space name) typ (trim_space prefix)
          (trimmed_base_url base_url)
    asked ← asked_selection key_selection
    guard (prefix_free db id (trim_space prefix)) already_exists
    ok (t, asked)

  module _ (fingerprint : Text → Text) (encrypt : ℕ → Text → Option Text) where
    -- The first key of a new provider, where one is given.
    unfoldable pub with_first_key : Db → ℕ → Text → Result Db
    unfolding create_provider_key
    with_first_key db id api_key =
        if eq_text (trim_space api_key) []
        then ok db
        else do (k, db') ← create_provider_key fingerprint encrypt db id [] api_key; ok db'

    -- The answer, and the database that is left: a failure behind the insert does not undo it.
    unfoldable pub create_provider :
        Db → Text → Text → Text → Text → Text → Bool → Option Text → Result ProviderRow × Db
    unfolding checked_provider with_first_key get_provider trimmed_base_url
    create_provider db name typ prefix base_url api_key enabled key_selection =
        elim (checked_provider db (db.providers.last_id + 1) name typ prefix base_url
          key_selection) [
            | err e ↦ (err e, db)
            | ok (t, asked) ↦
                let db' : Db = record db {
                  providers =
                      insert_row
                        (λ id. record {
                          id = id;
                          name = trim_space name;
                          type = t;
                          prefix = trim_space prefix;
                          base_url = trimmed_base_url base_url;
                          key_selection = selection_or first asked;
                          enabled = enabled;
                        })
                        db.providers;
                } in
                elim (with_first_key db' (db.providers.last_id + 1) api_key) [
                  | err e ↦ (err e, db')
                  | ok db'' ↦ (get_provider db'' (db.providers.last_id + 1), db'')
                ]
          ]
