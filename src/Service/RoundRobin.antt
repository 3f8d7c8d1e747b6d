-- ===== src/Service/RoundRobin.antt =====
-- internal/service/service.go: the round-robin cursors, and the rotation that EligibleKeys and
-- ResolveGroupTargets make with them (internal/service/provider_keys.go and groups.go).
-- The key `domain + ":" + id` of the map is the pair of the domain and the id.
pub mod Rotation
pub mod Fairness
use pogu.Prelude.{
  ℕ, zero, suc, ◌+◌, ◌%◌, ◌^◌, List, [], ◌∷◌, Option, none, some, Bool, true, false, ◌&&◌, ◌==◌,
  leb, if◌then◌else◌, length, get_elem?,
}

pub data Domain : Type 0 where
  provider group : Domain

abbrev same_domain : Domain → Domain → Bool
same_domain provider provider = true
same_domain group group = true
same_domain _ _ = false

-- A missing key reads 0, as a Go map does.
abbrev pub Cursors : Type 0
Cursors = Domain → ℕ → ℕ

abbrev pub no_cursors : Cursors
no_cursors d id = 0

-- s.rrCursors[key] = value
unfoldable pub set_cursor : Domain → ℕ → ℕ → Cursors → Cursors
set_cursor d id v cursors e j = if same_domain d e && id == j then v else cursors e j

abbrev pub uint64_mod : ℕ
uint64_mod = 2 ^ 64

-- The cursor is a uint64: it wraps.
unfoldable pub next_round_robin_cursor : Domain → ℕ → ℕ → Cursors → ℕ × Cursors
unfolding set_cursor
next_round_robin_cursor d id n cursors =
    if leb n 1
    then (0, cursors)
    else (cursors d id % n, set_cursor d id ((cursors d id + 1) % uint64_mod) cursors)

-- One round of `ordered[i] = enabled[(cursor+i)%len(enabled)]`; an index out of range would panic,
-- and here leaves the slot out.
abbrev keep_slot {ℓ} : {A : Type ℓ} → Option A → List A → List A
keep_slot none rest = rest
keep_slot (some x) rest = x ∷ rest

module _ {ℓ} {A : Type ℓ} (cursor : ℕ) (out : List A) where
  -- the rounds left, and the index of the next slot
  pub fill : ℕ → ℕ → List A
  fill zero i = []
  fill (suc k) i = keep_slot (get_elem? out ((cursor + i) % length out)) (fill k (i + 1))

  unfoldable pub rotated : List A
  unfolding fill
  rotated = fill (length out) 0
