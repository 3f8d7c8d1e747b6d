-- ===== src/Service/Import/Commits.antt =====
-- ImportProviderKeys of internal/service/import.go: the entries that it accepts are stored, whatever the text.
use pogu.Prelude.{
  ℕ, suc, ◌+◌, ◌≡◌, refl, sym, ap, ◌∙◌, subst, List, [], ◌∷◌, ◌++◌, Option, none, some, Bool, true,
  false, ◌&&◌, ◌||◌, ◌==◌, ltb, map, any, find, where_, length, All, Text, eq_text, trim_space,
  arith, Bool-cases, Option-cases, inl, inr, append_assoc, append-nil,
}
use pogu.Store.{Db, KeyRow, next_position}
use pogu.Service.Types.{Result, ok}
use pogu.Service.Import.{
  Reader, Reading, blank, refused, accepted, ImportResult, ValidParsedEntry, keys_of_provider,
  secret_taken, with_key, new_key, name_and_secret, acceptance, read_secret, read_entry, read_line,
  read_lines, parse_import, import_result, add_reading, insert_entries, commit_entries, lines_of,
  import_provider_keys,
}

-- None of the fingerprints is among those seen, nor among those before it.
abbrev pub IsFresh : List Text → List Text → Type 0
IsFresh seen [] = Unit
IsFresh seen (fp ∷ fps) = (any (eq_text fp) seen ≡ false) × IsFresh (fp ∷ seen) fps

IsFresh-seen :
    {seen seen' : List Text} (fps : List Text) → seen' ≡ seen → IsFresh seen' fps → IsFresh seen fps
IsFresh-seen fps e fresh = subst (λ seen. IsFresh seen fps) e fresh

abbrev seen_in : Reader → List Text → List Text
seen_in r existing = map (λ (b : Text × ℕ). b.0) r.batch ++ existing

-- A round that accepts an entry has not seen its fingerprint, and has seen it behind.
abbrev IsStep : List Text → Reader → Reading → Reader → Type 0
IsStep existing r blank r' = seen_in r' existing ≡ seen_in r existing
IsStep existing r (refused e) r' = seen_in r' existing ≡ seen_in r existing
IsStep existing r (accepted e v) r' =
    (any (eq_text v.fp) (seen_in r existing) ≡ false)
    × (seen_in r' existing ≡ v.fp ∷ seen_in r existing)

length-map : {A B : Type 0} (f : A → B) (xs : List A) → length (map f xs) ≡ length xs
length-map f [] = refl
length-map f (x ∷ xs) = ap suc (length-map f xs)

any-append :
    {A : Type 0} (p : A → Bool) (xs ys : List A) → any p (xs ++ ys) ≡ (any p xs || any p ys)
any-append p [] ys = refl
any-append p (x ∷ xs) ys = ground (arith, any-append p xs ys)

find-any :
    (fp : Text) (batch : List (Text × ℕ))
    → find (λ (b : Text × ℕ). eq_text fp b.0) batch ≡ none
    → any (eq_text fp) (map (λ (b : Text × ℕ). b.0) batch) ≡ false
find-any fp [] e = refl
find-any fp (b ∷ batch) e = ground (arith, e, find-any fp batch)

read_secret-IsStep :
    (existing : List Text) (n : ℕ) (r : Reader) (name secret fp : Text)
    → let out = read_secret existing n r name secret fp in IsStep existing r out.0 out.1
unfolding read_secret acceptance
read_secret-IsStep existing n r name secret fp = elim (Bool-cases (any (eq_text fp) existing)) [
  | inl old ↦ rw old refl
  | inr new ↦ elim (Option-cases (find (λ (b : Text × ℕ). eq_text fp b.0) r.batch)) [
    | inl e ↦ rw (new, e) (unseen new e, refl)
    | inr (b, e) ↦ rw (new, e) refl
  ]
]
  where
    unseen :
        any (eq_text fp) existing ≡ false
        → find (λ (b : Text × ℕ). eq_text fp b.0) r.batch ≡ none
        → any (eq_text fp) (seen_in r existing) ≡ false
    unseen new e =
        any-append (eq_text fp) (map (λ (b : Text × ℕ). b.0) r.batch) existing
        ∙ rw (find-any fp r.batch e) new

module _ (fingerprint : Text → Text) (existing : List Text) where
  read_line-IsStep :
      (n : ℕ) (r : Reader) (raw_line : Text)
      → let out = read_line fingerprint existing n r raw_line in IsStep existing r out.0 out.1
  unfolding read_line read_entry
  read_line-IsStep n r raw_line = elim (Bool-cases (eq_text (trim_space raw_line) [])) [
    | inl e ↦ rw e refl
    | inr e ↦ rw e (entry (name_and_secret (trim_space raw_line)))
  ]
    where
      entry :
          (p : Text × Text)
          → let out = read_entry fingerprint existing n r p in IsStep existing r out.0 out.1
      entry (name, secret) = elim (Bool-cases (eq_text secret [])) [
        | inl e ↦ rw e refl
        | inr e ↦ rw e (read_secret-IsStep existing n r name secret (fingerprint secret))
      ]

  read_lines-IsFresh :
      (n : ℕ) (r : Reader) (lines : List Text)
      → IsFresh (seen_in r existing) (map (λ v. v.fp) (read_lines fingerprint existing n r lines).1)
  unfolding read_lines
  read_lines-IsFresh n r [] = tt
  read_lines-IsFresh n r (raw_line ∷ lines) =
      let out = read_line fingerprint existing n r raw_line in
      added out.0 out.1 (read_line-IsStep n r raw_line) (read_lines-IsFresh (n + 1) out.1 lines)
    where
      added :
          (reading : Reading) (r' : Reader)
          → IsStep existing r reading r'
          → IsFresh
              (seen_in r' existing)
              (map (λ v. v.fp) (read_lines fingerprint existing (n + 1) r' lines).1)
          → IsFresh (seen_in r existing) (
              map
                (λ v. v.fp)
                (add_reading reading (read_lines fingerprint existing (n + 1) r' lines)).1)
      added blank r' step rest =
          IsFresh-seen (map (λ v. v.fp) (read_lines fingerprint existing (n + 1) r' lines).1) step
            rest
      added (refused e) r' step rest =
          IsFresh-seen (map (λ v. v.fp) (read_lines fingerprint existing (n + 1) r' lines).1) step
            rest
      added (accepted e v) r' step rest = (
        step.0,
        IsFresh-seen (map (λ v. v.fp) (read_lines fingerprint existing (n + 1) r' lines).1) step.1
            rest,
      )

secret_taken-owned :
    (rows : List KeyRow) (provider_id : ℕ) (fp : Text)
    → secret_taken rows provider_id fp
      ≡ any
          (eq_text fp)
          (map (λ k. k.secret_hash) (where_ (λ k. k.provider_id == provider_id) rows))
secret_taken-owned [] provider_id fp = refl
secret_taken-owned (k ∷ rows) provider_id fp =
    ground (arith, secret_taken-owned rows provider_id fp)

secret_taken-snoc :
    (rows : List KeyRow) (k : KeyRow) (seen : List Text) (fp : Text)
    → secret_taken rows k.provider_id fp ≡ any (eq_text fp) seen
    → secret_taken (rows ++ k ∷ []) k.provider_id fp ≡ any (eq_text fp) (k.secret_hash ∷ seen)
secret_taken-snoc rows k seen fp h =
    any-append (λ (j : KeyRow). j.provider_id == k.provider_id && eq_text fp j.secret_hash) rows
      (k ∷ [])
    ∙ ground (arith, h)

module _ (provider_id : ℕ) (encrypt : ℕ → Text → Option Text) where
  -- The rows that the entries of a list have become, behind those of a database.
  abbrev Adds : List ValidParsedEntry → Db → Result Db → List KeyRow → Type 0
  Adds vs db out added =
      (db' : Db) × (out ≡ ok db')
      × (db'.keys.rows ≡ db.keys.rows ++ added)
      × (map (λ k. k.secret_hash) added ≡ map (λ v. v.fp) vs)
      × All (λ k. k.provider_id ≡ provider_id) added

  insert_entries-Adds :
      ((draw : ℕ) (secret : Text) → (sealed : Text) × (encrypt draw secret ≡ some sealed))
      → (draw position : ℕ) (vs : List ValidParsedEntry) (db : Db) (seen : List Text)
      → ((fp : Text) → secret_taken db.keys.rows provider_id fp ≡ any (eq_text fp) seen)
      → IsFresh seen (map (λ v. v.fp) vs)
      → (added : List KeyRow) × Adds vs db
          (insert_entries encrypt provider_id draw position vs db)
          added
  unfolding insert_entries
  insert_entries-Adds encrypts draw position [] db seen agrees fresh =
      ([], (db, refl, sym (append-nil db.keys.rows), refl, tt))
  insert_entries-Adds encrypts draw position (v ∷ vs) db seen agrees fresh =
      let (sealed, e) = encrypts draw v.secret in
      let k : KeyRow = new_key provider_id v.name sealed v.fp position (db.keys.last_id + 1) in
      let (added, (db', run, rows, hashes, owned)) =
        insert_entries-Adds encrypts (draw + 1) (position + 1) vs
          (with_key db provider_id v.name sealed v.fp position) (v.fp ∷ seen)
          (λ fp. secret_taken-snoc db.keys.rows k seen fp (agrees fp)) fresh.1 in
      (
        k ∷ added,
        rw (e, agrees v.fp, fresh.0)
            (
              db',
              run,
              rows ∙ append_assoc db.keys.rows (k ∷ []) added,
              ap (λ fps. v.fp ∷ fps) hashes,
              (refl, owned),
            ),
      )

  commit_entries_lem :
      (db : Db) (vs : List ValidParsedEntry)
      → commit_entries encrypt true db provider_id vs
        ≡ insert_entries encrypt provider_id 0
            (next_position (λ k. k.sort_order) (keys_of_provider db provider_id))
            vs
            db
  unfolding commit_entries
  commit_entries_lem db [] = refl
  commit_entries_lem db (v ∷ vs) = rw some_valid refl
    where
      some_valid : ltb 0 (length (v ∷ vs)) ≡ true
      some_valid = ground arith

-- Where the provider exists and the master key encrypts, an import that commits is not stopped by the database,
-- whatever the text: it reports what the import without a commit reports, and stores behind the keys that there
-- were as many keys of the provider as it reports valid, whose fingerprints differ from each other and from
-- those of the provider's keys.
pub import_provider_keys_commits :
    (fingerprint : Text → Text) (encrypt : ℕ → Text → Option Text)
    → ((draw : ℕ) (secret : Text) → (sealed : Text) × (encrypt draw secret ≡ some sealed))
    → (db : Db) (provider_id : ℕ) (text : Text)
    → any (λ p. p.id == provider_id) db.providers.rows ≡ true
    → (r : ImportResult) × (db' : Db) × (added : List KeyRow) × (import_provider_keys fingerprint
          encrypt db provider_id text true
        ≡ ok (r, db'))
      × (import_provider_keys fingerprint encrypt db provider_id text false ≡ ok (r, db))
      × (db'.keys.rows ≡ db.keys.rows ++ added)
      × (length added ≡ r.valid)
      × All (λ k. k.provider_id ≡ provider_id) added
      × IsFresh
          (map (λ k. k.secret_hash) (keys_of_provider db provider_id))
          (map (λ k. k.secret_hash) added)
unfolding import_provider_keys parse_import import_result
import_provider_keys_commits fingerprint encrypt encrypts db provider_id text h =
    let keys = keys_of_provider db provider_id in
    let vs = (parse_import fingerprint keys text).1 in
    let fresh : IsFresh (map (λ k. k.secret_hash) keys) (map (λ v. v.fp) vs) =
      read_lines-IsFresh fingerprint (map (λ k. k.secret_hash) keys) 1 _ (lines_of text) in
    let (added, (db', run, rows, hashes, owned)) =
      insert_entries-Adds provider_id encrypt encrypts 0 (next_position (λ k. k.sort_order) keys) vs
        db (map (λ k. k.secret_hash) keys) (secret_taken-owned db.keys.rows provider_id) fresh in
    (
      import_result (parse_import fingerprint keys text).0 vs,
      db',
      added,
      rw (h, commit_entries_lem provider_id encrypt db vs, run) refl,
      rw h refl,
      rows,
      sym (length-map (λ k. k.secret_hash) added) ∙ ap length hashes ∙ length-map (λ v. v.fp) vs,
      owned,
      subst (IsFresh (map (λ k. k.secret_hash) keys)) (sym hashes) fresh,
    )
