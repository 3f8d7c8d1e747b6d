-- ===== src/Provider/Body/Prompts/Placed.antt =====
-- Where a prompt stands in the messages of a chat body.
use pogu.Prelude.{
  ℕ, ◌+◌, ◌≡◌, refl, sym, ap, [], ◌∷◌, ◌++◌, Bool, true, false, if◌then◌else◌, take, drop,
  take-append-drop, arith, All, Bool-cases, inl, inr, ◌⊎◌, suc,
}
use pogu.Provider.Json.{Json, Array}
use pogu.Provider.Body.Prompts.{is_system, behind_system, with_entry}

-- The last message, if there is one, is a system message; without one, `before` tells of what stands before.
abbrev pub EndsInSystem : Bool → Array → Type 0
EndsInSystem before [] = before ≡ true
EndsInSystem before (j ∷ js) = EndsInSystem (is_system j) js

abbrev pub NoSystem : Array → Type 0
NoSystem js = All (λ j. is_system j ≡ false) js

behind_system_lem :
    (i : ℕ) (js : Array)
    → ((n : ℕ) × ((found : ℕ) → behind_system i found js ≡ i + suc n)
        × ((before : Bool) → EndsInSystem before (take (suc n) js))
        × NoSystem (drop (suc n) js))
      ⊎ (((found : ℕ) → behind_system i found js ≡ found) × NoSystem js)
unfolding behind_system
behind_system_lem i [] = inr (λ found. refl, tt)
behind_system_lem i (j ∷ js) = elim (behind_system_lem (i + 1) js) [
  | inl (n, later, ends, rest) ↦ inl (
    suc n,
    λ found. omega (arith, later (if is_system j then i + 1 else found)),
    λ before. ends (is_system j),
    rest,
  )
  | inr (none_later, rest) ↦ elim (Bool-cases (is_system j)) [
    | inl system ↦
        inl (0, λ found. ground (arith, system, none_later (i + 1)), λ before. system, rest)
    | inr other ↦ inr (λ found. ground (arith, other, none_later found), (other, rest))
  ]
]

-- The prompt is put in behind the last system message, or before all messages where there is none; the other
-- messages are those that were there, in their order.
with_entry_lem :
    (entry : Json) (raw : Array)
    → (before : Array) × (behind : Array) × (with_entry entry raw ≡ before ++ entry ∷ behind)
      × (raw ≡ before ++ behind)
      × EndsInSystem true before
      × NoSystem behind
unfolding with_entry
with_entry_lem entry raw = elim (behind_system_lem 0 raw) [
  | inl (n, place, ends, rest) ↦
      let there : behind_system 0 0 raw ≡ suc n = omega (arith, place 0) in
      (
        take (suc n) raw,
        drop (suc n) raw,
        ap (λ k. take k raw ++ entry ∷ drop k raw) there,
        sym (take-append-drop (suc n) raw),
        ends true,
        rest,
      )
  | inr (place, rest) ↦
      ([], raw, ap (λ k. take k raw ++ entry ∷ drop k raw) (place 0), refl, refl, rest)
]
