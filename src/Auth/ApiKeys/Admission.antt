-- ===== src/Auth/ApiKeys/Admission.antt =====
-- Which client keys AuthenticateAPIKey admits (internal/service/auth.go).
use pogu.Prelude.{
  ℕ, ◌+◌, ◌≤◌, ◌<◌, ◌≡◌, ◌≢◌, refl, sym, ap, ◌∙◌, subst, List, [], ◌∷◌, ◌++◌, none, some, Bool,
  true, false, ◌&&◌, not, ◌==◌, leb, if◌then◌else◌, arith, Text, eq_text, eq_text_iff, length, take,
  trim_space, find, any, update_where, All, find-All, find-holds, find-snoc, All-append, Bool-cases,
  inl, inr,
}
use pogu.Store.{Table, with_rows}
use pogu.Service.Types.{
  ok, validation, not_found, unauthorized, constraint_failed, guard, or_fail, >>=-eq-ok,
  or_fail-eq-ok, guard-eq-ok, ok-injective,
}
use pogu.Auth.ApiKeys.{
  ClientKeyRow, key_prefix, max_key_name_runes, is_none, get_api_key, of_plaintext, create_api_key,
  admits, authenticate_api_key, made_key, used_at, revoke, revoke_api_key,
}

abbrev is_active : ℕ → ClientKeyRow → Bool
is_active id k = (k.id == id) && is_none k.revoked_at

revoke-rows :
    (now id : ℕ) (ks : List ClientKeyRow)
    → All (λ k. is_active id k ≡ false) (update_where (λ k. k.id == id) (revoke now) ks)
revoke-rows now id [] = tt
revoke-rows now id (k ∷ ks) = (off, revoke-rows now id ks)
  where
    off : is_active id (if k.id == id then revoke now k else k) ≡ false
    off = ground arith

got_id : (t : Table ClientKeyRow) (id : ℕ) (k : ClientKeyRow) → get_api_key t id ≡ ok k → k.id ≡ id
unfolding get_api_key
got_id t id k h =
    let holds =
      find-holds (λ r. r.id == id) t.rows
        (or_fail-eq-ok (find (λ r. r.id == id) t.rows) not_found h) in
    ground (arith, holds)

admits-id :
    (hash_token : Text → Text) (text_lt : ℕ → ℕ → Bool) (now id : ℕ) (plaintext : Text)
    (k : ClientKeyRow)
    → admits hash_token text_lt now plaintext k ≡ true
    → is_active id k ≡ false
    → k.id ≢ id
admits-id hash_token text_lt now id plaintext k h off = ground (arith, h, off)

-- No row has the id and is not revoked, and the id is one that the table has given.
record IsRetired (id : ℕ) (t : Table ClientKeyRow) : Type 0 where
  given : id ≤ t.last_id
  inactive : All (λ r. is_active id r ≡ false) t.rows

update_where-inactive :
    (id : ℕ) (p : ClientKeyRow → Bool) (f : ClientKeyRow → ClientKeyRow)
    → ((r : ClientKeyRow) → is_active id r ≡ false → is_active id (f r) ≡ false)
    → (ks : List ClientKeyRow) → All (λ r. is_active id r ≡ false) ks
    → All (λ r. is_active id r ≡ false) (update_where p f ks)
update_where-inactive id p f keeps [] a = tt
update_where-inactive id p f keeps (k ∷ ks) (off, a) = elim (Bool-cases (p k)) [
  | inl e ↦ rw e (keeps k off, update_where-inactive id p f keeps ks a)
  | inr e ↦ rw e (off, update_where-inactive id p f keeps ks a)
]

revoke-inactive :
    (id now : ℕ) (r : ClientKeyRow) → is_active id r ≡ false → is_active id (revoke now r) ≡ false
revoke-inactive id now r off = ground (arith, off)

module _ (hash_token : Text → Text) (text_lt : ℕ → ℕ → Bool) where
  -- One operation on the client keys that succeeds; one that fails leaves the table.
  pub data Step : Table ClientKeyRow → Table ClientKeyRow → Type 0 where
    created :
        (t t' : Table ClientKeyRow) (now : ℕ) (name drawn plaintext : Text) (k : ClientKeyRow)
        → create_api_key hash_token t now name drawn ≡ ok (k, plaintext, t')
        → Step t t'
    authenticated :
        (t t' : Table ClientKeyRow) (now : ℕ) (plaintext : Text) (k : ClientKeyRow)
        → authenticate_api_key hash_token text_lt t now plaintext ≡ ok (k, t')
        → Step t t'
    revoked : (t t' : Table ClientKeyRow) (now id : ℕ) → revoke_api_key t now id ≡ ok t' → Step t t'

  pub data Reached (start : Table ClientKeyRow) : Table ClientKeyRow → Type 0 where
    here : Reached start start
    there : {s t : Table ClientKeyRow} → Reached start s → Step s t → Reached start t

  -- What a successful authentication found, and what it did.
  authenticate-parts :
      (t t' : Table ClientKeyRow) (now : ℕ) (plaintext : Text) (k : ClientKeyRow)
      → authenticate_api_key hash_token text_lt t now plaintext ≡ ok (k, t')
      → (r : ClientKeyRow) × (find (admits hash_token text_lt now plaintext) t.rows ≡ some r)
        × (k.id ≡ r.id)
        × (with_rows (update_where (λ x. x.id == r.id) (used_at now) t.rows) t ≡ t')
  unfolding authenticate_api_key
  authenticate-parts t t' now plaintext k h =
      let (_, _, h1) =
        >>=-eq-ok
          (guard (eq_text (take 8 plaintext) key_prefix && leb 28 (length plaintext)) unauthorized)
          _ h in
      let (r, found, h2) =
        >>=-eq-ok (or_fail (find (admits hash_token text_lt now plaintext) t.rows) unauthorized) _
          h1 in
      let used = with_rows (update_where (λ x. x.id == r.id) (used_at now) t.rows) t in
      let (got, read, made) = >>=-eq-ok (get_api_key used r.id) _ h2 in
      (
        r,
        or_fail-eq-ok (find (admits hash_token text_lt now plaintext) t.rows) unauthorized found,
        sym (ap (λ x. x.0.id) (ok-injective made)) ∙ got_id used r.id got read,
        ap (λ x. x.1) (ok-injective made),
      )

  -- A key that is admitted is one that is not revoked.
  authenticate_active :
      (t t' : Table ClientKeyRow) (id now : ℕ) (plaintext : Text) (k : ClientKeyRow)
      → All (λ r. is_active id r ≡ false) t.rows
      → authenticate_api_key hash_token text_lt t now plaintext ≡ ok (k, t')
      → k.id ≢ id
  authenticate_active t t' id now plaintext k inactive h e =
      let (r, seen, same, _) = authenticate-parts t t' now plaintext k h in
      admits-id hash_token text_lt now id plaintext r
        (find-holds (admits hash_token text_lt now plaintext) t.rows seen)
        (find-All (λ r. is_active id r ≡ false) (admits hash_token text_lt now plaintext) t.rows
          inactive seen)
        (sym same ∙ e)

  Step-IsRetired : (id : ℕ) {s t : Table ClientKeyRow} → Step s t → IsRetired id s → IsRetired id t
  unfolding create_api_key revoke_api_key
  Step-IsRetired id (created t t' now name drawn plaintext k h) i =
      let (_, _, h1) = >>=-eq-ok (guard (not (eq_text (trim_space name) [])) validation) _ h in
      let (_, _, h2) =
        >>=-eq-ok (guard (leb (length (trim_space name)) max_key_name_runes) validation) _ h1 in
      let (_, _, h3) =
        >>=-eq-ok
          (guard (not (any (of_plaintext hash_token (key_prefix ++ drawn)) t.rows))
            constraint_failed)
          _ h2 in
      let new : ClientKeyRow =
        made_key now name (hash_token (key_prefix ++ drawn)) (t.last_id + 1) in
      let (_, _, made) =
        >>=-eq-ok
          (get_api_key (record { rows = t.rows ++ new ∷ []; last_id = t.last_id + 1 })
            (t.last_id + 1))
          _ h3 in
      subst (IsRetired id) (ap (λ x. x.2) (ok-injective made)) (record {
        given = omega (arith, i.given);
        inactive =
            All-append (λ r. is_active id r ≡ false) t.rows (new ∷ []) i.inactive
              (ground (arith, i.given), tt);
      })
  Step-IsRetired id (authenticated t t' now plaintext k h) i =
      let (r, _, _, made) = authenticate-parts t t' now plaintext k h in
      subst (IsRetired id) made (record {
        given = i.given;
        inactive =
            update_where-inactive id (λ x. x.id == r.id) (used_at now) (λ x off. off) t.rows
              i.inactive;
      })
  Step-IsRetired id (revoked t t' now other h) i =
      let (_, _, made) = >>=-eq-ok (guard (any (λ k. k.id == other) t.rows) not_found) _ h in
      subst (IsRetired id) (ok-injective made) (record {
        given = i.given;
        inactive =
            update_where-inactive id (λ x. x.id == other) (revoke now) (revoke-inactive id now)
              t.rows i.inactive;
      })

  Reached-IsRetired :
      (id : ℕ) {s t : Table ClientKeyRow} → Reached s t → IsRetired id s → IsRetired id t
  Reached-IsRetired id here i = i
  Reached-IsRetired id (there r x) i = Step-IsRetired id x (Reached-IsRetired id r i)

any_below :
    (id n : ℕ) (ks : List ClientKeyRow)
    → All (λ r. r.id ≤ n) ks
    → any (λ r. r.id == id) ks ≡ true
    → id ≤ n
any_below id n [] a h = absurd (ground (arith, h))
any_below id n (k ∷ ks) (b, a) h = elim (Bool-cases (k.id == id)) [
  | inl e ↦ ground (arith, e, b)
  | inr e ↦ any_below id n ks a (rw e at h)
]

-- Once RevokeAPIKey has revoked a key, whatever keys are then created, used and revoked, no plaintext is admitted as
-- that key, at any time. No row's id is above the last that the table has given.
pub revoke_ends :
    (hash_token : Text → Text) (text_lt : ℕ → ℕ → Bool) (t t' s s' : Table ClientKeyRow)
    (id now later : ℕ) (plaintext : Text) (k : ClientKeyRow)
    → All (λ r. r.id ≤ t.last_id) t.rows
    → revoke_api_key t now id ≡ ok t'
    → Reached hash_token text_lt t' s
    → authenticate_api_key hash_token text_lt s later plaintext ≡ ok (k, s')
    → k.id ≢ id
unfolding revoke_api_key
revoke_ends hash_token text_lt t t' s s' id now later plaintext k below was_revoked run h =
    let (_, known, made) =
      >>=-eq-ok (guard (any (λ r. r.id == id) t.rows) not_found) _ was_revoked in
    let retired : IsRetired id t' = subst (IsRetired id) (ok-injective made) (record {
      given =
          any_below id t.last_id t.rows below
            (guard-eq-ok (any (λ r. r.id == id) t.rows) not_found known);
      inactive = revoke-rows now id t.rows;
    }) in
    authenticate_active hash_token text_lt s s' id later plaintext k
      (Reached-IsRetired hash_token text_lt id run retired).inactive h

find-updated :
    (f : ClientKeyRow → ClientKeyRow) (ks : List ClientKeyRow) (k : ClientKeyRow) (n : ℕ)
    → All (λ r. r.id ≤ n) ks
    → n < k.id
    → (f k).id ≡ k.id
    → find (λ r. r.id == k.id) (update_where (λ r. r.id == k.id) f (ks ++ k ∷ [])) ≡ some (f k)
find-updated f [] k n below above e = ground (arith, e)
find-updated f (x ∷ ks) k n below above e =
    ground (arith, find-updated f ks k n below.1 above e, below.0, above)

find-new :
    (ks : List ClientKeyRow) (k : ClientKeyRow) (n : ℕ)
    → All (λ r. r.id ≤ n) ks
    → k.id ≡ n + 1
    → find (λ r. r.id == n + 1) (ks ++ k ∷ []) ≡ some k
find-new [] k n below e = ground (arith, e)
find-new (x ∷ ks) k n below e = ground (arith, find-new ks k n below.1 e, below.0)

any-admits :
    (hash_token : Text → Text) (text_lt : ℕ → ℕ → Bool) (now : ℕ) (plaintext : Text)
    (ks : List ClientKeyRow)
    → any (of_plaintext hash_token plaintext) ks ≡ false
    → find (admits hash_token text_lt now plaintext) ks ≡ none
any-admits hash_token text_lt now plaintext [] h = refl
any-admits hash_token text_lt now plaintext (k ∷ ks) h =
    ground (arith, h, any-admits hash_token text_lt now plaintext ks)

authenticate_made :
    (hash_token : Text → Text) (text_lt : ℕ → ℕ → Bool) (t : Table ClientKeyRow) (later : ℕ)
    (drawn : Text) (k : ClientKeyRow)
    → 20 ≤ length drawn
    → All (λ r. r.id ≤ t.last_id) t.rows
    → any (of_plaintext hash_token (key_prefix ++ drawn)) t.rows ≡ false
    → t.last_id < k.id
    → admits hash_token text_lt later (key_prefix ++ drawn) k ≡ true
    → (t'' : Table ClientKeyRow) × (authenticate_api_key hash_token text_lt
          (record { rows = t.rows ++ k ∷ []; last_id = t.last_id + 1 })
          later
          (key_prefix ++ drawn)
        ≡ ok (used_at later k, t''))
unfolding authenticate_api_key get_api_key eq_text
authenticate_made hash_token text_lt t later drawn k long below unused above admitted =
    let found =
      find-snoc (admits hash_token text_lt later (key_prefix ++ drawn)) t.rows k
        (any-admits hash_token text_lt later (key_prefix ++ drawn) t.rows unused) admitted in
    let updated = find-updated (used_at later) t.rows k t.last_id below above refl in
    (
      record {
        rows = update_where (λ r. r.id == k.id) (used_at later) (t.rows ++ k ∷ []);
        last_id = t.last_id + 1;
      },
      ground (arith, found, updated, long),
    )

-- CreateAPIKey returns a plaintext that AuthenticateAPIKey then admits, at any time, as the key that was
-- created, with the time noted as its last use: the random part has 20 characters or more, and no row's id
-- is above the table's last.
pub authenticate-create :
    (hash_token : Text → Text) (text_lt : ℕ → ℕ → Bool) (t t' : Table ClientKeyRow) (now later : ℕ)
    (name drawn plaintext : Text) (k : ClientKeyRow)
    → 20 ≤ length drawn
    → All (λ r. r.id ≤ t.last_id) t.rows
    → create_api_key hash_token t now name drawn ≡ ok (k, plaintext, t')
    → (t'' : Table ClientKeyRow) × (authenticate_api_key hash_token text_lt t' later plaintext
        ≡ ok (used_at later k, t''))
unfolding create_api_key authenticate_api_key get_api_key
authenticate-create hash_token text_lt t t' now later name drawn plaintext k long below h =
    let (_, _, h1) = >>=-eq-ok (guard (not (eq_text (trim_space name) [])) validation) _ h in
    let (_, _, h2) =
      >>=-eq-ok (guard (leb (length (trim_space name)) max_key_name_runes) validation) _ h1 in
    let (_, unused, h3) =
      >>=-eq-ok
        (guard (not (any (of_plaintext hash_token (key_prefix ++ drawn)) t.rows)) constraint_failed)
        _ h2 in
    let new : ClientKeyRow = made_key now name (hash_token (key_prefix ++ drawn)) (t.last_id + 1) in
    let made = rw (find-new t.rows new t.last_id below refl) at h3 in
    subst
      (λ x.
        (t'' : Table ClientKeyRow) × (authenticate_api_key hash_token text_lt x.2 later x.1
          ≡ ok (used_at later x.0, t'')))
      (ok-injective made)
      (authenticate_made hash_token text_lt t later drawn new long below
        (ground (
          arith,
          guard-eq-ok (not (any (of_plaintext hash_token (key_prefix ++ drawn)) t.rows))
              constraint_failed unused,
        ))
        (omega arith)
        (ground (
          arith,
          eq_text_iff (hash_token (key_prefix ++ drawn)) (hash_token (key_prefix ++ drawn)),
        )))
