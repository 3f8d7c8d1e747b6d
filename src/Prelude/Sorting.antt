-- ===== src/Prelude/Sorting.antt =====
-- ORDER BY two numeric columns: an insertion sort, ordered, and a permutation of its input.
use Prim.Native.Nat.{ℕ}
use mathlib.Core.Logic.{inl, inr}
use mathlib.Core.Bool.{Bool, ◌&&◌, ◌||◌}
use mathlib.Core.List.{List, [], ◌∷◌, Perm}
use mathlib.Core.List.Perm
use native.Mathlib.Omega.{arith}
use pogu.Prelude.Tests.{ltb, leb, ◌==◌, if◌then◌else◌, Bool-cases}
use pogu.Prelude.Lists.{All}

module _ {ℓ} {A : Type ℓ} (first second : A → ℕ) where
  abbrev pub before : A → A → Bool
  before x y = ltb (first x) (first y) || first x == first y && leb (second x) (second y)

  pub insert_row : A → List A → List A
  insert_row x [] = x ∷ []
  insert_row x (y ∷ ys) = if before x y then x ∷ y ∷ ys else y ∷ insert_row x ys

  unfoldable pub order_by : List A → List A
  unfolding insert_row
  order_by [] = []
  order_by (x ∷ xs) = insert_row x (order_by xs)

  insert_row-perm : (x : A) (ys : List A) → Perm (insert_row x ys) (x ∷ ys)
  unfolding insert_row
  insert_row-perm x [] = Perm.refl _
  insert_row-perm x (y ∷ ys) = ground (
    arith,
    Perm.refl (x ∷ y ∷ ys),
    Perm.trans (Perm.cons y (insert_row-perm x ys)) (Perm.swap x y ys),
  )

  pub order_by-perm : (xs : List A) → Perm (order_by xs) xs
  unfolding order_by
  order_by-perm [] = Perm.refl _
  order_by-perm (x ∷ xs) =
      Perm.trans (insert_row-perm x (order_by xs)) (Perm.cons x (order_by-perm xs))

  All-insert_row {κ} :
      (P : A → Type κ) (x : A) (ys : List A) → P x → All P ys → All P (insert_row x ys)
  unfolding insert_row
  All-insert_row P x [] px a = (px, tt)
  All-insert_row P x (y ∷ ys) px a = elim (Bool-cases (before x y)) [
    | inl e ↦ rw (e, insert_row) (px, a)
    | inr e ↦ rw (e, insert_row) (a.0, All-insert_row P x ys px a.1)
  ]

  pub All-order_by {κ} : (P : A → Type κ) (xs : List A) → All P xs → All P (order_by xs)
  unfolding order_by
  All-order_by P [] a = tt
  All-order_by P (x ∷ xs) a = All-insert_row P x (order_by xs) a.0 (All-order_by P xs a.1)
