-- ===== src/Service/RoundRobin/Rotation.antt =====
-- The rotation loop against the reference `drop c xs ++ take c xs`.
use mathlib.Core.List.{perm_append_comm}
use pogu.Prelude.{
  ℕ, zero, suc, ◌+◌, ◌%◌, ◌≤◌, ◌<◌, ◌≡◌, refl, sym, ◌∙◌, subst, List, [], ◌∷◌, ◌++◌, Perm, arith,
  length, get_elem?, take, drop, take-append-drop, All, ap, append-nil, ◌≢◌,
}
use native.Mathlib.Decide.{dec_lt}
use pogu.Service.RoundRobin.{fill, rotated, keep_slot}

module _ {ℓ} {A : Type ℓ} where
  -- The slot that a round reads heads the rest of the list.
  drop-step :
      (j : ℕ) (xs : List A)
      → j < length xs
      → keep_slot (get_elem? xs j) (drop (suc j) xs) ≡ drop j xs
  drop-step j [] h = absurd (omega arith)
  drop-step zero (x ∷ xs) h = refl
  drop-step (suc j) (x ∷ xs) h = drop-step j xs (omega arith)

  slot-take : (j c : ℕ) (xs : List A) → j < c → get_elem? (take c xs) j ≡ get_elem? xs j
  slot-take j zero xs h = absurd (omega arith)
  slot-take j (suc c) [] h = refl
  slot-take zero (suc c) (x ∷ xs) h = refl
  slot-take (suc j) (suc c) (x ∷ xs) h = slot-take j c xs (omega arith)

  length-take : (c : ℕ) (xs : List A) → c ≤ length xs → length (take c xs) ≡ c
  length-take zero xs h = refl
  length-take (suc c) [] h = absurd (omega arith)
  length-take (suc c) (x ∷ xs) h = omega (arith, length-take c xs)

  drop-all : (xs : List A) (c : ℕ) → length xs ≡ c → drop c xs ≡ []
  drop-all [] zero h = refl
  drop-all [] (suc c) h = refl
  drop-all (x ∷ xs) zero h = absurd (omega arith)
  drop-all (x ∷ xs) (suc c) h = drop-all xs c (omega arith)

mod_wrapped : (a n j : ℕ) → a ≡ n + j → j < n → a % n ≡ j
mod_wrapped a n j e h = grind arith

mod_straight : (a n : ℕ) → a < n → a % n ≡ a
mod_straight a n h = grind arith

module _ {ℓ} {A : Type ℓ} where
  take-none : (c : ℕ) (xs : List A) → c ≡ 0 → take c xs ≡ []
  take-none zero xs e = refl
  take-none (suc c) xs e = absurd (omega arith)

  -- `drop-step` under an append.
  drop-step_append :
      (p : ℕ) (xs ys : List A)
      → p < length xs
      → keep_slot (get_elem? xs p) (drop (suc p) xs ++ ys) ≡ drop p xs ++ ys
  drop-step_append p [] ys h = absurd (omega arith)
  drop-step_append zero (x ∷ xs) ys h = refl
  drop-step_append (suc p) (x ∷ xs) ys h = drop-step_append p xs ys (omega arith)

module _ {ℓ} {A : Type ℓ} (c : ℕ) (xs : List A) (lt : c < length xs) where
  -- The rounds after the wrap read the front of the list.
  fill_wrapped :
      (k i j : ℕ) → c + i ≡ length xs + j → j + k ≡ c → fill c xs k i ≡ drop j (take c xs)
  unfolding fill
  fill_wrapped zero i j e f = sym (drop-all (take c xs) j (omega (arith, length-take c xs)))
  fill_wrapped (suc k) i j e f =
      rw
        (
          mod_wrapped (c + i) (length xs) j e (omega arith),
          fill_wrapped k (i + 1) (suc j) (omega arith) (omega arith),
          ← slot-take j c xs (omega arith),
        )
        (drop-step j (take c xs) (omega (arith, length-take c xs)))

  -- The rounds before it read the back.
  fill_straight :
      (k i p : ℕ)
      → c + i ≡ p
      → i + k ≡ length xs
      → p ≤ length xs
      → fill c xs k i ≡ drop p xs ++ take c xs
  unfolding fill
  fill_straight zero i p e f g = rw (drop-all xs p (omega arith), take-none c xs (omega arith))
  fill_straight (suc k) i p e f g = elim (dec_lt p (length xs)) [
    | yes h ↦
        rw
          (
            e,
            mod_straight p (length xs) h,
            fill_straight k (i + 1) (suc p) (omega arith) (omega arith) (omega arith),
          )
          (drop-step_append p xs (take c xs) h)
    | no h ↦ rw (drop-all xs p (omega arith)) (fill_wrapped (suc k) i 0 (omega arith) (omega arith))
  ]

  -- The rotation is the list cut at the cursor, its two parts swapped.
  pub rotated-drop-take : rotated c xs ≡ drop c xs ++ take c xs
  unfolding rotated
  rotated-drop-take = fill_straight (length xs) 0 c (omega arith) (omega arith) (omega arith)

  -- So it drops no entry and makes none up.
  pub rotated-perm : Perm (rotated c xs) xs
  rotated-perm = rw rotated-drop-take (
      subst (Perm (drop c xs ++ take c xs)) (take-append-drop c xs)
        (perm_append_comm (drop c xs) (take c xs)))

slot-All {ℓ κ} :
    {A : Type ℓ} (P : A → Type κ) (xs rest : List A) (j : ℕ)
    → All P xs
    → All P rest
    → All P (keep_slot (get_elem? xs j) rest)
slot-All P [] rest j a b = b
slot-All P (x ∷ xs) rest zero a b = (a.0, b)
slot-All P (x ∷ xs) rest (suc j) a b = slot-All P xs rest j a.1 b

fill-All {ℓ κ} :
    {A : Type ℓ} (P : A → Type κ) (c : ℕ) (xs : List A) (k i : ℕ) → All P xs → All P (fill c xs k i)
unfolding fill
fill-All P c xs zero i a = tt
fill-All P c xs (suc k) i a =
    slot-All P xs (fill c xs k (i + 1)) ((c + i) % length xs) a (fill-All P c xs k (i + 1) a)

pub rotated-All {ℓ κ} :
    {A : Type ℓ} (P : A → Type κ) (c : ℕ) (xs : List A) → All P xs → All P (rotated c xs)
unfolding rotated
rotated-All P c xs a = fill-All P c xs (length xs) 0 a

append-nil_parts {ℓ} : {A : Type ℓ} (xs ys : List A) → xs ++ ys ≡ [] → ys ++ xs ≡ []
append-nil_parts [] ys e = append-nil ys ∙ e
append-nil_parts (x ∷ xs) ys e = cc

-- A rotation of a non-empty list is not empty.
pub rotated-ne-nil {ℓ} : {A : Type ℓ} (c : ℕ) (xs : List A) → c < length xs → rotated c xs ≢ []
rotated-ne-nil c xs lt e =
    let whole : xs ≡ [] =
      sym (take-append-drop c xs)
      ∙ append-nil_parts (drop c xs) (take c xs) (sym (rotated-drop-take c xs lt) ∙ e) in
    absurd (omega (arith, ap length whole))
