-- ===== src/Service/Routing/Keys.antt =====
-- What EligibleKeys returns, and in which order.
use native.Mathlib.Nat.{mod-lt}
use mathlib.Core.List.Perm
use pogu.Prelude.{
  ℕ, ◌<◌, ◌≡◌, ◌≢◌, inl, inr, List, [], true, ltb, arith, length, All, where_, All-where_,
  where_-holds, All-order_by, Perm, Bool-cases, ==_iff, ◌==◌, subst, All-both, find-holds, All-imp,
}
use pogu.Store.{Db, ProviderRow, KeyRow, KeySelection, first, round_robin}
use pogu.Service.RoundRobin.{Domain, Cursors, next_round_robin_cursor, provider}
use pogu.Service.RoundRobin.Rotation.{rotated-perm, rotated-All, rotated-ne-nil}
use pogu.Service.Types.{ok, ok-injective, Result-cases, or_fail-eq-ok, not_found}
use pogu.Service.Routing.{
  get_provider, list_provider_keys, enabled_keys, select, keys_of, eligible_keys,
}

module _ {ℓ} {A : Type ℓ} (d : Domain) (id : ℕ) (xs : List A) (cursors : Cursors) where
  cursor_in_range : (n : ℕ) → 1 < n → (next_round_robin_cursor d id n cursors).0 < n
  unfolding next_round_robin_cursor
  cursor_in_range n h = ground (arith, mod-lt (cursors d id) {m = n})

  pub select-ne-nil : (sel : KeySelection) → xs ≢ [] → (select sel d id xs cursors).0 ≢ []
  unfolding select
  select-ne-nil first h = h
  select-ne-nil round_robin h = elim (Bool-cases (ltb 1 (length xs))) [
    | inl e ↦ rw (e, select) (rotated-ne-nil _ xs (cursor_in_range (length xs) (ground arith)))
    | inr e ↦ rw (e, select) h
  ]

  -- Whatever the strategy, the selection offers the same entries.
  pub select-perm : (sel : KeySelection) → Perm (select sel d id xs cursors).0 xs
  unfolding select
  select-perm first = Perm.refl xs
  select-perm round_robin = elim (Bool-cases (ltb 1 (length xs))) [
    | inl e ↦ rw (e, select) (rotated-perm _ xs (cursor_in_range (length xs) (ground arith)))
    | inr e ↦ rw (e, select) (Perm.refl xs)
  ]

pub select-All {ℓ κ} :
    {A : Type ℓ} (P : A → Type κ) (sel : KeySelection) (d : Domain) (id : ℕ) (xs : List A)
    (cursors : Cursors)
    → All P xs
    → All P (select sel d id xs cursors).0
unfolding select
select-All P first d id xs cursors a = a
select-All P round_robin d id xs cursors a = elim (Bool-cases (ltb 1 (length xs))) [
  | inl e ↦ rw (e, select) (rotated-All P _ xs a)
  | inr e ↦ rw (e, select) a
]

-- A key that may serve a provider's requests.
abbrev pub IsUsableKey : ℕ → KeyRow → Type 0
IsUsableKey id k = (k.provider_id ≡ id) × (k.enabled ≡ true)

pub enabled_keys-All : (db : Db) (id : ℕ) → All (IsUsableKey id) (enabled_keys db id)
unfolding enabled_keys list_provider_keys
enabled_keys-All db id =
    All-both (λ (k : KeyRow). k.provider_id ≡ id) (λ k. k.enabled ≡ true) (enabled_keys db id)
      (All-where_ _ (λ k. k.enabled) (list_provider_keys db id)
        (All-order_by _ _ (λ (k : KeyRow). k.provider_id ≡ id) mine owned))
      (where_-holds (λ k. k.enabled) (list_provider_keys db id))
  where
    mine : List KeyRow
    mine = where_ (λ k. k.provider_id == id) db.keys.rows

    owned : All (λ (k : KeyRow). k.provider_id ≡ id) mine
    owned =
        All-imp (λ (k : KeyRow). (k.provider_id == id) ≡ true) (λ k. k.provider_id ≡ id)
          (λ k e. (==_iff k.provider_id id).0 e) mine
          (where_-holds (λ k. k.provider_id == id) db.keys.rows)

pub get_provider-id : (db : Db) (id : ℕ) (p : ProviderRow) → get_provider db id ≡ ok p → p.id ≡ id
unfolding get_provider
get_provider-id db id p h =
    (==_iff p.id id).0
      (find-holds (λ q. q.id == id) db.providers.rows (or_fail-eq-ok _ not_found h))

-- Whenever EligibleKeys returns keys, they are a rearrangement of the provider's enabled keys, and
-- each of them belongs to the provider and is enabled.
pub eligible_keys-perm :
    (db : Db) (id : ℕ) (cursors : Cursors) (ks : List KeyRow)
    → (eligible_keys db id cursors).0 ≡ ok ks
    → Perm ks (enabled_keys db id) × All (IsUsableKey id) ks
unfolding eligible_keys keys_of
eligible_keys-perm db id cursors ks h = elim (Result-cases (get_provider db id)) [
  | inr (e, r) ↦ absurd (ground (arith, h, r))
  | inl (p, r) ↦
      let same : (keys_of db p cursors).0 ≡ ks = ok-injective (rw (r, eligible_keys) at h) in
      let (kept, usable) = selected p in
      let here : p.id ≡ id = get_provider-id db id p r in
      (
        subst (λ i. Perm ks (enabled_keys db i)) here
            (subst (λ l. Perm l (enabled_keys db p.id)) same kept),
        subst (λ i. All (IsUsableKey i) ks) here (subst (All (IsUsableKey p.id)) same usable),
      )
]
  where
    selected :
        (p : ProviderRow)
        → Perm (keys_of db p cursors).0 (enabled_keys db p.id)
          × All (IsUsableKey p.id) (keys_of db p cursors).0
    selected p = (
      select-perm provider p.id (enabled_keys db p.id) cursors p.key_selection,
      select-All _ p.key_selection provider p.id _ cursors (enabled_keys-All db p.id),
    )
