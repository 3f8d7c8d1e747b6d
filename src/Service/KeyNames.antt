-- ===== src/Service/KeyNames.antt =====
-- The names that keys get where none is given (nextMonotonicKeyName of internal/service/provider_keys.go and
-- keyNamePattern of validate.go). The numbers are those of a Go int under its largest value.
use pogu.Prelude.{
  ℕ, zero, suc, ◌+◌, ◌-◌, ◌*◌, ◌/◌, ◌%◌, ◌^◌, ◌≤◌, ◌<◌, ◌≡◌, refl, sym, ap, ◌∙◌, List, [], ◌∷◌,
  ◌++◌, Option, none, some, Bool, true, false, ◌&&◌, ◌||◌, ◌==◌, ltb, leb, max, if◌then◌else◌, Text,
  codes, eq_text, eq_text_iff, any, arith, Bool-cases, Option-cases, inl, inr,
}

abbrev pub is_digit : ℕ → Bool
is_digit c = leb b'0' c && leb c b'9'

-- [\t\n\f\r ]
abbrev pub is_regex_space : ℕ → Bool
is_regex_space c = c == 9 || c == 10 || c == 12 || c == 13 || c == 32

-- The number whose digits follow on those of `n`, up to the end; none at another character.
unfoldable pub digits_from : ℕ → Text → Option ℕ
digits_from n [] = some n
digits_from n (c ∷ s) =
    let rest = digits_from (n * 10 + (c - 48)) s in if is_digit c then rest else none

-- `(\d+)$`, with at least one digit, as strconv.Atoi reads it: none from 2 ^ 63 on.
unfoldable pub number_to_end : Text → Option ℕ
unfolding digits_from
number_to_end [] = none
number_to_end (c ∷ s) = elim (digits_from 0 (c ∷ s)) [
  | none ↦ none
  | some n ↦ if ltb n (2 ^ 63) then some n else none
]

-- `\s*` and the number.
unfoldable pub behind_spaces : Text → Option ℕ
unfolding number_to_end
behind_spaces [] = none
behind_spaces (c ∷ s) =
    let rest = behind_spaces s in if is_regex_space c then rest else number_to_end (c ∷ s)

-- `^Key\s+(\d+)$`
unfoldable pub key_number : Text → Option ℕ
unfolding behind_spaces
key_number (k ∷ e ∷ y ∷ c ∷ s) =
    if k == b'K' && e == b'e' && y == b'y' && is_regex_space c then behind_spaces s else none
key_number _ = none

unfoldable pub max_key_number : List Text → ℕ
unfolding key_number
max_key_number [] = 0
max_key_number (name ∷ names) = elim (key_number name) [
  | none ↦ max_key_number names
  | some n ↦ max n (max_key_number names)
]

-- The decimal digits of a number, in front of `s`; as many rounds as the number is large are enough.
unfoldable pub decimal : ℕ → ℕ → Text → Text
decimal zero n s = s
decimal (suc fuel) n s =
    let more = decimal fuel (n / 10) ((48 + n % 10) ∷ s) in if ltb n 10 then (48 + n) ∷ s else more

-- fmt.Sprintf("Key %d", n)
unfoldable pub auto_name : ℕ → Text
unfolding decimal
auto_name n = codes "Key " ++ decimal (suc n) n []

unfoldable pub next_monotonic_key_name : List Text → Text
unfolding max_key_number auto_name
next_monotonic_key_name names = auto_name (max_key_number names + 1)

digit_read :
    (n d : ℕ) (s : Text) → d < 10 → digits_from n ((48 + d) ∷ s) ≡ digits_from (n * 10 + d) s
unfolding digits_from
digit_read n d s h = rw is_one (ap (λ k. digits_from k s) (omega arith))
  where
    is_one : is_digit (48 + d) ≡ true
    is_one = ground arith

digits_from-decimal :
    (fuel n : ℕ) (s : Text) → n < fuel → digits_from 0 (decimal fuel n s) ≡ digits_from n s
unfolding decimal
digits_from-decimal zero n s h = absurd (omega arith)
digits_from-decimal (suc fuel) n s h = elim (Bool-cases (ltb n 10)) [
  | inl small ↦
      rw small (digit_read 0 n s (ground (arith, small)) ∙ ap (λ k. digits_from k s) (omega arith))
  | inr large ↦ rw large (
      digits_from-decimal fuel (n / 10) ((48 + n % 10) ∷ s) (ground (arith, large))
      ∙ digit_read (n / 10) (n % 10) s (omega arith)
      ∙ ap (λ k. digits_from k s) (omega arith))
]

decimal_head :
    (fuel n : ℕ) (s : Text)
    → n < fuel
    → (c : ℕ) × (t : Text) × (decimal fuel n s ≡ c ∷ t) × (is_digit c ≡ true)
unfolding decimal
decimal_head zero n s h = absurd (omega arith)
decimal_head (suc fuel) n s h = elim (Bool-cases (ltb n 10)) [
  | inl small ↦ (48 + n, s, rw small, ground (arith, small))
  | inr large ↦ rw large (decimal_head fuel (n / 10) ((48 + n % 10) ∷ s) (ground (arith, large)))
]

number_to_end-digits :
    (c : ℕ) (t : Text) (n : ℕ)
    → n < 2 ^ 63
    → digits_from 0 (c ∷ t) ≡ some n
    → number_to_end (c ∷ t) ≡ some n
unfolding number_to_end
number_to_end-digits c t n h whole = rw (number_to_end, whole, small) refl
  where
    small : ltb n (2 ^ 63) ≡ true
    small = ground arith

behind_spaces-digits :
    (c : ℕ) (t : Text) (n : ℕ)
    → is_digit c ≡ true
    → n < 2 ^ 63
    → digits_from 0 (c ∷ t) ≡ some n
    → behind_spaces (c ∷ t) ≡ some n
unfolding behind_spaces
behind_spaces-digits c t n digit h whole =
    rw (behind_spaces, not_space) (number_to_end-digits c t n h whole)
  where
    not_space : is_regex_space c ≡ false
    not_space = ground (arith, digit)

key_number-auto_name : (n : ℕ) → n < 2 ^ 63 → key_number (auto_name n) ≡ some n
unfolding key_number auto_name
key_number-auto_name n h =
    let (c, t, e, digit) = decimal_head (suc n) n [] (omega arith) in
    ap behind_spaces e
    ∙ behind_spaces-digits c t n digit h
        (ap (digits_from 0) (sym e) ∙ digits_from-decimal (suc n) n [] (omega arith))

max_key_number-first :
    (name : Text) (names : List Text) (n : ℕ)
    → key_number name ≡ some n
    → n ≤ max_key_number (name ∷ names)
unfolding max_key_number
max_key_number-first name names n e = rw (max_key_number, e) (omega arith)

max_key_number-rest :
    (name : Text) (names : List Text) → max_key_number names ≤ max_key_number (name ∷ names)
unfolding max_key_number
max_key_number-rest name names = elim (Option-cases (key_number name)) [
  | inl e ↦ rw (max_key_number, e) (omega arith)
  | inr (n, e) ↦ rw (max_key_number, e) (omega arith)
]

key_number-le-max :
    (names : List Text) (name : Text) (n : ℕ)
    → any (eq_text name) names ≡ true
    → key_number name ≡ some n
    → n ≤ max_key_number names
key_number-le-max [] name n h e = cc
key_number-le-max (m ∷ names) name n h e = elim (Bool-cases (eq_text name m)) [
  | inl same ↦
      max_key_number-first m names n (ap key_number (sym ((eq_text_iff name m).0 same)) ∙ e)
  | inr other ↦
      omega (
        arith,
        key_number-le-max names name n (ground (arith, other)) e,
        max_key_number-rest m names,
      )
]

-- The name that a key is given for want of one is none of the names that the provider's keys have, while the
-- numbers in them stay under 2 ^ 63 - 1.
pub next_monotonic_key_name_fresh :
    (names : List Text)
    → max_key_number names + 1 < 2 ^ 63
    → any (eq_text (next_monotonic_key_name names)) names ≡ false
unfolding next_monotonic_key_name
next_monotonic_key_name_fresh names h =
    elim (Bool-cases (any (eq_text (auto_name (max_key_number names + 1))) names)) [
      | inl taken ↦ absurd (
          omega (
            arith,
            key_number-le-max names (auto_name (max_key_number names + 1))
                (max_key_number names + 1) taken
                (key_number-auto_name (max_key_number names + 1) h),
          ))
      | inr free ↦ free
    ]
