-- ===== src/Service/RoundRobin/Fairness.antt =====
-- Successive requests of one pool: which entry each of them starts at.
use native.Mathlib.Decide.{dec_le, dec_lt}
use native.Mathlib.Nat.{mod-lt, mod-add-mod, mod-eq_of_lt}
use pogu.Prelude.{
  ℕ, zero, suc, ◌+◌, ◌-◌, ◌%◌, ◌≤◌, ◌<◌, ◌≡◌, ◌≢◌, ◌⊎◌, inl, inr, sym, ◌∙◌, arith, ap,
}
use pogu.Service.RoundRobin.{Domain, Cursors, uint64_mod, next_round_robin_cursor, provider, group}

-- The cursor that the k-th of successive requests gets, from 0.
unfoldable pub turn : Domain → ℕ → ℕ → ℕ → Cursors → ℕ
turn d id n zero cursors = (next_round_robin_cursor d id n cursors).0
turn d id n (suc k) cursors = turn d id n k (next_round_robin_cursor d id n cursors).1

next_here :
    (d : Domain) (id n : ℕ) (cursors : Cursors)
    → 1 < n
    → ((next_round_robin_cursor d id n cursors).0 ≡ cursors d id % n)
      × ((next_round_robin_cursor d id n cursors).1 d id ≡ (cursors d id + 1) % uint64_mod)
unfolding next_round_robin_cursor
next_here provider id n cursors h = ground arith
next_here group id n cursors h = ground arith

turn_lem :
    (d : Domain) (id n k : ℕ) (cursors : Cursors)
    → 1 < n
    → cursors d id + k < uint64_mod
    → turn d id n k cursors ≡ (cursors d id + k) % n
unfolding turn
turn_lem d id n zero cursors h b = (next_here d id n cursors h).0 ∙ ap (λ m. m % n) (omega arith)
turn_lem d id n (suc k) cursors h b =
    turn_lem d id n k (next_round_robin_cursor d id n cursors).1 h (omega (arith, stepped))
    ∙ ap (λ m. m % n) (omega (arith, stepped))
  where
    stepped : (next_round_robin_cursor d id n cursors).1 d id ≡ cursors d id + 1
    stepped = (next_here d id n cursors h).1 ∙ mod-eq_of_lt (omega arith)

-- A request of one pool leaves the cursor of every other pool alone.
next_round_robin_cursor_elsewhere :
    (d e : Domain) (id j n : ℕ) (cursors : Cursors)
    → (d ≢ e) ⊎ (id ≢ j)
    → (next_round_robin_cursor d id n cursors).1 e j ≡ cursors e j
unfolding next_round_robin_cursor
next_round_robin_cursor_elsewhere provider provider id j n cursors h = ground arith
next_round_robin_cursor_elsewhere provider group id j n cursors h = ground arith
next_round_robin_cursor_elsewhere group provider id j n cursors h = ground arith
next_round_robin_cursor_elsewhere group group id j n cursors h = ground arith

turn_cases : (q i n : ℕ) → q < n → i < n → ((q + i) % n ≡ q + i) ⊎ ((q + i) % n + n ≡ q + i)
turn_cases q i n h l = elim (dec_lt (q + i) n) [
  | yes p ↦ inl (mod-eq_of_lt p)
  | no p ↦ inr (grind arith)
]

reach : (q j n : ℕ) → q < n → j < n → (i : ℕ) × (i < n) × ((q + i) % n ≡ j)
reach q j n h l = elim (dec_le q j) [
  | yes p ↦ (j - q, omega arith, ground (arith, turn_cases q (j - q) n))
  | no p ↦ (
    j + n - q,
    omega arith,
    ground (arith, turn_cases q (j + n - q) n, mod-lt (q + (j + n - q)) {m = n}),
  )
]

apart : (q i i' n : ℕ) → q < n → i < n → i' < n → (q + i) % n ≡ (q + i') % n → i ≡ i'
apart q i i' n h l l' e = ground (arith, turn_cases q i n h l, turn_cases q i' n h l')

-- Among n successive requests of a pool of n > 1 entries, while its counter does not wrap, each
-- entry comes first in exactly one of them.
pub round_robin_fair :
    (d : Domain) (id n j : ℕ) (cursors : Cursors)
    → 1 < n
    → j < n
    → cursors d id + n ≤ uint64_mod
    → (k : ℕ) × (k < n)
      × (turn d id n k cursors ≡ j)
      × ((k' : ℕ) → k' < n → turn d id n k' cursors ≡ j → k' ≡ k)
round_robin_fair d id n j cursors h l b =
    let q = cursors d id % n in
    let below : cursors d id % n < n = mod-lt (cursors d id) {m = n} (omega arith) in
    let (k, kn, e) = reach (cursors d id % n) j n below l in
    (
      k,
      kn,
      start k kn ∙ e,
      λ k' kn' e'. apart (cursors d id % n) k' k n below kn' kn (sym (start k' kn') ∙ e' ∙ sym e),
    )
  where
    start : (k : ℕ) → k < n → turn d id n k cursors ≡ (cursors d id % n + k) % n
    start k kn = turn_lem d id n k cursors h (omega arith) ∙ sym (mod-add-mod (cursors d id) n k)
