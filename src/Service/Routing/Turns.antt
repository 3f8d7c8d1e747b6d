-- ===== src/Service/Routing/Turns.antt =====
-- Successive requests of a pool under `round_robin`: EligibleKeys of internal/service/provider_keys.go.
use native.Mathlib.Nat.{mod-lt}
use pogu.Prelude.{
  ℕ, zero, suc, ◌+◌, ◌≤◌, ◌<◌, ◌≡◌, refl, sym, ap, ◌∙◌, List, [], ◌∷◌, ◌++◌, some, true, ◌==◌, ltb,
  arith, length, get_elem?, take, drop, find, find-holds,
}
use pogu.Store.{Db, ProviderRow, KeyRow, round_robin}
use pogu.Service.RoundRobin.{
  Domain, Cursors, provider, uint64_mod, next_round_robin_cursor, rotated,
}
use pogu.Service.RoundRobin.Rotation.{rotated-drop-take}
use pogu.Service.RoundRobin.Fairness.{turn, round_robin_fair}
use pogu.Service.Types.{Result, ok, ok-injective, not_found, or_fail-eq-ok}
use pogu.Service.Routing.{get_provider, enabled_keys, select, keys_of, eligible_keys}

module _ {ℓ} {A : Type ℓ} where
  head-drop :
      (c : ℕ) (xs : List A) → c < length xs → get_elem? (drop c xs ++ take c xs) 0 ≡ get_elem? xs c
  head-drop c [] h = absurd (omega (arith, h))
  head-drop zero (x ∷ xs) h = refl
  head-drop (suc c) (x ∷ xs) h =
      step (drop c xs) (head-drop c xs (omega (arith, h))) (drop-length c xs (omega (arith, h)))
    where
      drop-length : (c : ℕ) (xs : List A) → c < length xs → 0 < length (drop c xs)
      drop-length c [] h = absurd (omega (arith, h))
      drop-length zero (x ∷ xs) h = omega arith
      drop-length (suc c) (x ∷ xs) h = drop-length c xs (omega (arith, h))

      step :
          (ds : List A)
          → get_elem? (ds ++ take c xs) 0 ≡ get_elem? xs c
          → 0 < length ds
          → get_elem? (ds ++ x ∷ take c xs) 0 ≡ get_elem? xs c
      step [] e l = absurd (omega (arith, l))
      step (d ∷ ds) e l = e

  in_range : (xs : List A) (j : ℕ) (x : A) → get_elem? xs j ≡ some x → j < length xs
  in_range [] j x e = cc
  in_range (y ∷ xs) zero x e = omega arith
  in_range (y ∷ xs) (suc j) x e = omega (arith, in_range xs j x e)

turn-range : (d : Domain) (id n k : ℕ) (cursors : Cursors) → 1 < n → turn d id n k cursors < n
unfolding turn next_round_robin_cursor
turn-range d id n zero cursors h = ground (arith, h, mod-lt (cursors d id) {m = n})
turn-range d id n (suc k) cursors h =
    turn-range d id n k (next_round_robin_cursor d id n cursors).1 h

-- What the k-th of successive requests for the keys of a provider is offered, from 0.
unfoldable pub offered : Db → ℕ → ℕ → Cursors → Result (List KeyRow)
offered db id zero cursors = (eligible_keys db id cursors).0
offered db id (suc k) cursors = offered db id k (eligible_keys db id cursors).1

module _ (db : Db) (id : ℕ) (p : ProviderRow) (found : get_provider db id ≡ ok p)
    (turns : p.key_selection ≡ round_robin) (several : 1 < length (enabled_keys db id)) where
  provider_id : p.id ≡ id
  unfolding get_provider
  provider_id = ground (
    arith,
    find-holds (λ q. q.id == id) db.providers.rows
        (or_fail-eq-ok (find (λ q. q.id == id) db.providers.rows) not_found found),
  )

  eligible_keys-turn :
      (cursors : Cursors)
      → eligible_keys db id cursors ≡ (
        ok (
            rotated
              (next_round_robin_cursor provider id (length (enabled_keys db id)) cursors).0
              (enabled_keys db id)),
        (next_round_robin_cursor provider id (length (enabled_keys db id)) cursors).1,
      )
  unfolding eligible_keys keys_of select
  eligible_keys-turn cursors =
      let more : ltb 1 (length (enabled_keys db id)) ≡ true = ground (arith, several) in
      rw (found, eligible_keys, turns, provider_id, more) refl

  offered-turn :
      (k : ℕ) (cursors : Cursors)
      → offered db id k cursors
        ≡ ok (
            rotated (turn provider id (length (enabled_keys db id)) k cursors) (enabled_keys db id))
  unfolding offered turn
  offered-turn zero cursors = ap (λ r. r.0) (eligible_keys-turn cursors)
  offered-turn (suc k) cursors =
      ap (λ r. offered db id k r.1) (eligible_keys-turn cursors)
      ∙ offered-turn k (next_round_robin_cursor provider id (length (enabled_keys db id)) cursors).1

-- Among as many successive requests of a round-robin provider as it has enabled keys, at least two, while its
-- counter does not wrap, each key that stands at one place only among the enabled ones comes first in exactly one, and
-- behind it come the keys that follow it and then the keys before it.
pub eligible_keys_fair :
    (db : Db) (id : ℕ) (p : ProviderRow) (cursors : Cursors) (j : ℕ) (x : KeyRow)
    → get_provider db id ≡ ok p
    → p.key_selection ≡ round_robin
    → 1 < length (enabled_keys db id)
    → get_elem? (enabled_keys db id) j ≡ some x
    → ((i : ℕ) → get_elem? (enabled_keys db id) i ≡ some x → i ≡ j)
    → cursors provider id + length (enabled_keys db id) ≤ uint64_mod
    → (k : ℕ) × (k < length (enabled_keys db id))
      × (offered db id k cursors ≡ ok (drop j (enabled_keys db id) ++ take j (enabled_keys db id)))
      × (get_elem? (drop j (enabled_keys db id) ++ take j (enabled_keys db id)) 0 ≡ some x)
      × ((k' : ℕ) (keys : List KeyRow)
          → k' < length (enabled_keys db id)
          → offered db id k' cursors ≡ ok keys
          → get_elem? keys 0 ≡ some x
          → k' ≡ k)
eligible_keys_fair db id p cursors j x found turns several at_j only bound =
    let below = in_range (enabled_keys db id) j x at_j in
    let (k, kn, e, unique) =
      round_robin_fair provider id (length (enabled_keys db id)) j cursors several below bound in
    (
      k,
      kn,
      offered-turn db id p found turns several k cursors
          ∙ ap (λ c. ok (rotated c (enabled_keys db id))) e
          ∙ ap ok (rotated-drop-take j (enabled_keys db id) below),
      head-drop j (enabled_keys db id) below ∙ at_j,
      λ k' keys kn' h first.
          let c = turn provider id (length (enabled_keys db id)) k' cursors in
          let range : turn provider id (length (enabled_keys db id)) k' cursors
              < length (enabled_keys db id) =
            turn-range provider id (length (enabled_keys db id)) k' cursors several in
          let same =
            ok-injective (sym h ∙ offered-turn db id p found turns several k' cursors)
            ∙ rotated-drop-take c (enabled_keys db id) range in
          unique k' kn' (
            only c (
              sym (head-drop c (enabled_keys db id) range)
              ∙ ap (λ l. get_elem? l 0) (sym same)
              ∙ first)),
    )
