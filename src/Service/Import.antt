-- ===== src/Service/Import.antt =====
-- CreateProviderKey (internal/service/provider_keys.go) and ImportProviderKeys (import.go). `fingerprint` is
-- crypto.KeyFingerprint and `encrypt` crypto.Encrypt under the master key, whose nonces are told apart by the
-- number of the drawing.
pub mod Commits
use pogu.Prelude.{
  ℕ, ◌+◌, ◌-◌, List, [], ◌∷◌, ◌++◌, Option, none, some, Bool, true, false, ◌&&◌, not, ◌==◌, ltb,
  map, any, find, where_, length, if◌then◌else◌, Text, codes, eq_text, trim_space, cut,
}
use pogu.Crypto.{mask_secret}
use pogu.Store.{Db, KeyRow, insert_row, next_position}
use pogu.Service.Types.{
  Result, ok, err, validation, not_found, already_exists, constraint_failed, encrypt_failed, guard,
  or_fail, ◌>>=◌, ◌>>◌,
}
use pogu.Service.KeyNames.{max_key_number, next_monotonic_key_name, auto_name, decimal}
use pogu.Service.Keys.{get_provider_key}

-- SELECT … FROM provider_keys WHERE provider_id=?
abbrev pub keys_of_provider : Db → ℕ → List KeyRow
keys_of_provider db provider_id = where_ (λ k. k.provider_id == provider_id) db.keys.rows

-- UNIQUE (provider_id, secret_hash)
abbrev pub secret_taken : List KeyRow → ℕ → Text → Bool
secret_taken rows provider_id fp =
    any (λ k. k.provider_id == provider_id && eq_text fp k.secret_hash) rows

abbrev pub new_key : ℕ → Text → Text → Text → ℕ → ℕ → KeyRow
new_key provider_id name sealed fp position id = record {
  id = id;
  provider_id = provider_id;
  name = name;
  encrypted_secret = sealed;
  secret_hash = fp;
  enabled = true;
  sort_order = position;
  last_used_at = none;
}

-- INSERT INTO provider_keys
abbrev pub with_key : Db → ℕ → Text → Text → Text → ℕ → Db
with_key db provider_id name sealed fp position = record db {
  keys = insert_row (new_key provider_id name sealed fp position) db.keys;
}

-- strings.Split(text, "\n")
unfoldable pub lines_of : Text → List Text
lines_of [] = [] ∷ []
lines_of (c ∷ s) = elim (lines_of s) [
  | [] ↦ (c ∷ []) ∷ []
  | l ∷ lines ↦ if c == 10 then [] ∷ l ∷ lines else (c ∷ l) ∷ lines
]

-- The name and the secret of a line, cut at the first `|`.
unfoldable pub name_and_secret : Text → Text × Text
name_and_secret line =
    let (before, behind, found) = cut b'|' line in
    if found then (trim_space before, trim_space behind) else ([], line)

pub record ImportEntry : Type 0 where
  pub line_number : ℕ
  pub name : Text
  pub masked_key : Text
  pub valid : Bool
  pub error : Text

pub record ImportResult : Type 0 where
  pub total : ℕ
  pub valid : ℕ
  pub invalid : ℕ
  pub entries : List ImportEntry

pub record ValidParsedEntry : Type 0 where
  pub name : Text
  pub secret : Text
  pub fp : Text
  pub masked_key : Text

-- What the loop keeps: the fingerprints of the batch with their lines, the last first, and the number of the
-- last name made.
pub record Reader : Type 0 where
  pub batch : List (Text × ℕ)
  pub next_auto_num : ℕ

-- A round of the loop: the line is skipped, refused or accepted.
pub data Reading : Type 0 where
  blank : Reading
  refused : ImportEntry → Reading
  accepted : ImportEntry → ValidParsedEntry → Reading

abbrev pub refusal : ℕ → Text → Text → Text → Reading
refusal line_num name secret error = refused (record {
  line_number = line_num;
  name = name;
  masked_key = mask_secret secret;
  valid = false;
  error = error;
})

-- The name of an entry, and the number of the last name made behind it.
unfoldable pub entry_name : ℕ → Text → Text × ℕ
unfolding auto_name
entry_name next_auto_num name =
    if eq_text name []
    then (auto_name (next_auto_num + 1), next_auto_num + 1)
    else (name, next_auto_num)

unfoldable pub acceptance : ℕ → Reader → Text → Text → Text → Reading × Reader
unfolding entry_name
acceptance line_num r name secret fp =
    let (named, next) = entry_name r.next_auto_num name in
    (
      accepted
          (record {
            line_number = line_num;
            name = named;
            masked_key = mask_secret secret;
            valid = true;
            error = [];
          })
          (record { name = named; secret = secret; fp = fp; masked_key = mask_secret secret }),
      record { batch = (fp, line_num) ∷ r.batch; next_auto_num = next },
    )

-- An entry that has a secret.
unfoldable pub read_secret : List Text → ℕ → Reader → Text → Text → Text → Reading × Reader
unfolding acceptance decimal
read_secret existing line_num r name secret fp =
    if any (eq_text fp) existing
    then (refusal line_num name secret (codes "duplicate secret already exists for provider"), r)
    else elim (find (λ (b : Text × ℕ). eq_text fp b.0) r.batch) [
      | some (f, first_line) ↦ (
        refusal line_num name secret (
            codes "duplicate secret in batch (line "
            ++ decimal (first_line + 1) first_line (codes ")")),
        r,
      )
      | none ↦ acceptance line_num r name secret fp
    ]

abbrev pub add_reading :
    Reading → List ImportEntry × List ValidParsedEntry → List ImportEntry × List ValidParsedEntry
add_reading blank found = found
add_reading (refused e) found = (e ∷ found.0, found.1)
add_reading (accepted e v) found = (e ∷ found.0, v ∷ found.1)

unfoldable pub import_result : List ImportEntry → List ValidParsedEntry → ImportResult
import_result entries valid_entries = record {
  total = length entries;
  valid = length valid_entries;
  invalid = length entries - length valid_entries;
  entries = entries;
}

module _ (fingerprint : Text → Text) where
  unfoldable pub read_entry : List Text → ℕ → Reader → Text × Text → Reading × Reader
  unfolding read_secret
  read_entry existing line_num r (name, secret) =
      if eq_text secret []
      then (refusal line_num name secret (codes "empty secret"), r)
      else read_secret existing line_num r name secret (fingerprint secret)

  unfoldable pub read_line : List Text → ℕ → Reader → Text → Reading × Reader
  unfolding name_and_secret read_entry
  read_line existing line_num r raw_line =
      let line = trim_space raw_line in
      if eq_text line [] then (blank, r) else read_entry existing line_num r (name_and_secret line)

  unfoldable pub read_lines :
      List Text → ℕ → Reader → List Text → List ImportEntry × List ValidParsedEntry
  unfolding read_line
  read_lines existing line_num r [] = ([], [])
  read_lines existing line_num r (raw_line ∷ lines) =
      let (reading, r') = read_line existing line_num r raw_line in
      add_reading reading (read_lines existing (line_num + 1) r' lines)

  -- The entries of a text for a provider, with the keys that it has.
  unfoldable pub parse_import : List KeyRow → Text → List ImportEntry × List ValidParsedEntry
  unfolding lines_of read_lines max_key_number
  parse_import keys text =
      read_lines (map (λ k. k.secret_hash) keys) 1
        (record { batch = []; next_auto_num = max_key_number (map (λ k. k.name) keys) })
        (lines_of text)

module _ (encrypt : ℕ → Text → Option Text) where
  -- The inserts of the transaction; the first error undoes them all.
  unfoldable pub insert_entries : ℕ → ℕ → ℕ → List ValidParsedEntry → Db → Result Db
  insert_entries provider_id draw position [] db = ok db
  insert_entries provider_id draw position (v ∷ vs) db = do
    sealed ← or_fail (encrypt draw v.secret) encrypt_failed
    guard (not (secret_taken db.keys.rows provider_id v.fp)) constraint_failed
    insert_entries provider_id (draw + 1) (position + 1) vs
        (with_key db provider_id v.name sealed v.fp position)

  -- if commit && validCount > 0
  unfoldable pub commit_entries : Bool → Db → ℕ → List ValidParsedEntry → Result Db
  unfolding insert_entries
  commit_entries commit db provider_id valid_entries =
      let position = next_position (λ k. k.sort_order) (keys_of_provider db provider_id) in
      if commit && ltb 0 (length valid_entries)
      then insert_entries provider_id 0 position valid_entries db
      else ok db

module _ (fingerprint : Text → Text) (encrypt : ℕ → Text → Option Text) where
  unfoldable pub import_provider_keys : Db → ℕ → Text → Bool → Result (ImportResult × Db)
  unfolding parse_import import_result commit_entries
  import_provider_keys db provider_id text commit = do
    guard (any (λ p. p.id == provider_id) db.providers.rows) not_found
    let keys : List KeyRow = keys_of_provider db provider_id
    let (entries, valid_entries) = parse_import fingerprint keys text
    db' ← commit_entries encrypt commit db provider_id valid_entries
    ok (import_result entries valid_entries, db')

  unfoldable pub create_provider_key : Db → ℕ → Text → Text → Result (KeyRow × Db)
  unfolding next_monotonic_key_name get_provider_key
  create_provider_key db provider_id name secret = do
    let secret' = trim_space secret
    guard (not (eq_text secret' [])) validation
    guard (any (λ p. p.id == provider_id) db.providers.rows) not_found
    guard (not (secret_taken db.keys.rows provider_id (fingerprint secret'))) already_exists
    let keys : List KeyRow = keys_of_provider db provider_id
    let name' =
        if eq_text (trim_space name) []
        then next_monotonic_key_name (map (λ k. k.name) keys)
        else trim_space name
    sealed ← or_fail (encrypt 0 secret') encrypt_failed
    let db' : Db =
        with_key db provider_id name' sealed (fingerprint secret')
          (next_position (λ k. k.sort_order) keys)
    k ← get_provider_key db' (db.keys.last_id + 1)
    ok (k, db')
