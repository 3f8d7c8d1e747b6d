-- ===== src/Prelude/Texts.antt =====
-- Texts as lists of code points.
use Prim.Native.Nat.{ℕ, ◌+◌}
use Prim.Native.Char.{code}
use Prim.Native.String.{String}
use mathlib.Core.Path.{◌≡◌, refl}
use mathlib.Core.Logic.{◌↔◌, ◌≢◌}
use mathlib.Core.Bool.{Bool, true, false, ◌&&◌, ◌||◌}
use mathlib.Core.List.{List, [], ◌∷◌, ◌++◌, reverse}
use native.Mathlib.Omega.{arith}
use pogu.Prelude.Tests.{◌==◌, leb, if◌then◌else◌}

abbrev pub Text : Type 0
Text = List ℕ

-- The code points of a literal.
abbrev pub codes : String → Text
codes String.[] = []
codes (String.◌∷◌ c s) = code c ∷ codes s

unfoldable pub eq_text : Text → Text → Bool
eq_text [] [] = true
eq_text [] (d ∷ t) = false
eq_text (c ∷ s) [] = false
eq_text (c ∷ s) (d ∷ t) = c == d && eq_text s t

pub eq_text_iff : (s t : Text) → (eq_text s t ≡ true) ↔ (s ≡ t)
unfolding eq_text
eq_text_iff [] [] = ground arith
eq_text_iff [] (d ∷ t) = ground arith
eq_text_iff (c ∷ s) [] = ground arith
eq_text_iff (c ∷ s) (d ∷ t) = ground (arith, eq_text_iff s t)

pub eq_text_refl : (s : Text) → eq_text s s ≡ true
eq_text_refl s = (eq_text_iff s s).1 refl

-- unicode.IsSpace
abbrev pub is_space : ℕ → Bool
is_space c =
    leb 9 c && leb c 13
    || c == 32
    || c == 0x85
    || c == 0xa0
    || c == 0x1680
    || leb 0x2000 c && leb c 0x200a
    || c == 0x2028
    || c == 0x2029
    || c == 0x202f
    || c == 0x205f
    || c == 0x3000

pub trim_left : Text → Text
trim_left [] = []
trim_left (c ∷ s) = if is_space c then trim_left s else c ∷ s

-- strings.TrimSpace
unfoldable pub trim_space : Text → Text
unfolding trim_left
trim_space s = reverse (trim_left (reverse (trim_left s)))

-- strings.Cut by one character: the text before and behind its first occurrence.
unfoldable pub cut : ℕ → Text → Text × Text × Bool
cut sep [] = ([], [], false)
cut sep (c ∷ s) =
    let (before, behind, found) = cut sep s in
    if c == sep then ([], s, true) else (c ∷ before, behind, found)

abbrev pub Lacks : ℕ → Text → Type 0
Lacks sep [] = Unit
Lacks sep (c ∷ s) = (c ≢ sep) × Lacks sep s

-- A text is cut at the first separator.
pub cut-append : (sep : ℕ) (s t : Text) → Lacks sep s → cut sep (s ++ sep ∷ t) ≡ (s, t, true)
unfolding cut
cut-append sep [] t h = ground arith
cut-append sep (c ∷ s) t h = ground (arith, cut-append sep s t h.1)

-- The parts that `cut` returns make up the text.
pub cut_sound : (sep : ℕ) (s a b : Text) → cut sep s ≡ (a, b, true) → s ≡ a ++ sep ∷ b
unfolding cut
cut_sound sep [] a b h = cc
cut_sound sep (c ∷ s) [] b h = ground arith
cut_sound sep (c ∷ s) (d ∷ a) b h = ground (arith, cut_sound sep s a b)

abbrev pub ascii_lower : ℕ → ℕ
ascii_lower c = if leb b'A' c && leb c b'Z' then c + 32 else c

-- Equality under COLLATE NOCASE, which folds the ASCII letters.
unfoldable pub eq_nocase : Text → Text → Bool
eq_nocase [] [] = true
eq_nocase [] (d ∷ t) = false
eq_nocase (c ∷ s) [] = false
eq_nocase (c ∷ s) (d ∷ t) = ascii_lower c == ascii_lower d && eq_nocase s t

pub eq_nocase_refl : (s : Text) → eq_nocase s s ≡ true
unfolding eq_nocase
eq_nocase_refl [] = refl
eq_nocase_refl (c ∷ s) = ground (arith, eq_nocase_refl s)

pub eq_nocase_comm : (s t : Text) → eq_nocase s t ≡ eq_nocase t s
unfolding eq_nocase
eq_nocase_comm [] [] = refl
eq_nocase_comm [] (d ∷ t) = refl
eq_nocase_comm (c ∷ s) [] = refl
eq_nocase_comm (c ∷ s) (d ∷ t) = ground (arith, eq_nocase_comm s t)
