-- ===== src/Service/PromptRules/Selected.antt =====
-- ResolvePromptRules of internal/service/promptrules.go against a description of the rules that apply to a request.
use pogu.Prelude.{
  ℕ, ◌≡◌, ◌≢◌, refl, sym, ap, ◌∙◌, List, [], ◌∷◌, ◌++◌, Option, none, some, Bool, true, false, ◌&&◌,
  not, ◌==◌, ◌⊎◌, inl, inr, arith, map, where_, any, All, Among, Bool-cases, subst,
}
use pogu.Service.Types.{PromptRule}
use pogu.Service.PromptRules.Resolve.{
  PromptSegment, segment, matches_model, matches_group, matches, last_where, suppressed,
  resolve_rules, resolve_rules_lem,
}

-- An enabled rule that claims the model (id 0 is no model), or the group.
abbrev pub ForModel : ℕ → PromptRule → Type 0
ForModel model_id r = (r.enabled ≡ true) × (model_id ≢ 0) × Among model_id r.models

abbrev pub ForGroup : Option ℕ → PromptRule → Type 0
ForGroup none r = ⊥
ForGroup (some id) r = (r.enabled ≡ true) × Among id r.groups

-- The prompts of the rules that apply, in their order.
pub data Fired (group_id : Option ℕ) (model_id : ℕ)
    : List PromptRule → List PromptSegment → Type 0 where
  no_rule : Fired group_id model_id [] []
  fires :
      (r : PromptRule) (rs : List PromptRule) (segments : List PromptSegment)
      → ForModel model_id r ⊎ ForGroup group_id r
      → Fired group_id model_id rs segments
      → Fired group_id model_id
          (r ∷ rs)
          (record { rule_id = r.id; rule_name = r.name; text = r.prompt } ∷ segments)
  passes :
      (r : PromptRule) (rs : List PromptRule) (segments : List PromptSegment)
      → (ForModel model_id r → ⊥)
      → (ForGroup group_id r → ⊥)
      → Fired group_id model_id rs segments
      → Fired group_id model_id (r ∷ rs) segments

abbrev pub None : (PromptRule → Type 0) → List PromptRule → Type 0
None P rules = All (λ r. P r → ⊥) rules

-- The last rule of which P holds.
abbrev pub IsLast : (PromptRule → Type 0) → List PromptRule → PromptRule → Type 0
IsLast P rules r =
    (before : List PromptRule) × (after : List PromptRule) × (rules ≡ before ++ r ∷ after)
    × P r
    × None P after

any-Among : (m : ℕ) (xs : List ℕ) → any (λ i. i == m) xs ≡ true → Among m xs
any-Among m [] h = cc
any-Among m (x ∷ xs) h = elim (Bool-cases (x == m)) [
  | inl e ↦ inl (ground (arith, e))
  | inr e ↦ inr (any-Among m xs (rw e at h))
]

Among-any : (m : ℕ) (xs : List ℕ) → Among m xs → any (λ i. i == m) xs ≡ true
Among-any m [] h = absurd h
Among-any m (x ∷ xs) (inl e) = ground (arith, e)
Among-any m (x ∷ xs) (inr h) = ground (arith, Among-any m xs h)

true-ne-false : {b : Bool} → b ≡ true → b ≡ false → ⊥
true-ne-false e f = cc

-- A test that decides P.
record Decides (P : PromptRule → Type 0) (p : PromptRule → Bool) : Type 0 where
  sound : (r : PromptRule) → p r ≡ true → P r
  holds : (r : PromptRule) → P r → p r ≡ true

module _ {P : PromptRule → Type 0} {p : PromptRule → Bool} (d : Decides P p) where
  fails : (r : PromptRule) → (P r → ⊥) → p r ≡ false
  fails r n = elim (Bool-cases (p r)) [ inl e ↦ absurd (n (d.sound r e)) | inr e ↦ e ]

  last_where-None :
      (rs : List PromptRule) (before : Option PromptRule)
      → None P rs
      → last_where p rs before ≡ before
  unfolding last_where
  last_where-None [] before n = refl
  last_where-None (r ∷ rs) before (n, ns) = rw (fails r n) (last_where-None rs before ns)

  last_where-found :
      (xs after : List PromptRule) (r : PromptRule) (before : Option PromptRule)
      → P r
      → None P after
      → last_where p (xs ++ r ∷ after) before ≡ some r
  unfolding last_where
  last_where-found [] after r before h n =
      rw (d.holds r h, last_where) (last_where-None after (some r) n)
  last_where-found (x ∷ xs) after r before h n = last_where-found xs after r _ h n

  last_where-IsLast :
      (rules : List PromptRule) (r : PromptRule)
      → IsLast P rules r
      → last_where p rules none ≡ some r
  last_where-IsLast rules r (before, after, e, h, n) =
      ap (λ l. last_where p l none) e ∙ last_where-found before after r none h n

module _ (group_id : Option ℕ) (model_id : ℕ) where
  for_model : Decides (ForModel model_id) (λ r. r.enabled && matches_model model_id r)
  for_model = record {
    sound = λ r h.
        (ground (arith, h), ground (arith, h), any-Among model_id r.models (ground (arith, h)));
    holds = λ r (on, given, m). ground (arith, on, given, Among-any model_id r.models m);
  }

  for_group : (g : Option ℕ) → Decides (ForGroup g) (λ r. r.enabled && matches_group g r)
  for_group none = record { sound = λ r h. ground (arith, h); holds = λ r h. absurd h }
  for_group (some id) = record {
    sound = λ r h. (ground (arith, h), any-Among id r.groups (ground (arith, h)));
    holds = λ r (on, m). ground (arith, on, Among-any id r.groups m);
  }

  segments-Fired :
      (rules : List PromptRule)
      → Fired group_id model_id rules
          (map segment (where_ (λ r. r.enabled && matches group_id model_id r) rules))
  segments-Fired [] = no_rule
  segments-Fired (r ∷ rs) = elim (Bool-cases (r.enabled && matches_model model_id r)) [
    | inl m ↦
        let on : (r.enabled && matches group_id model_id r) ≡ true = ground (arith, m) in
        rw on (fires r rs _ (inl (Decides.sound for_model r m)) (segments-Fired rs))
    | inr m ↦ elim (Bool-cases (r.enabled && matches_group group_id r)) [
      | inl g ↦
          let on : (r.enabled && matches group_id model_id r) ≡ true = ground (arith, g) in
          rw on (fires r rs _ (inr (Decides.sound (for_group group_id) r g)) (segments-Fired rs))
      | inr g ↦
          let off : (r.enabled && matches group_id model_id r) ≡ false = ground (arith, m, g) in
          rw off (
            passes r rs _ (λ h. true-ne-false (Decides.holds for_model r h) m)
              (λ h. true-ne-false (Decides.holds (for_group group_id) r h) g) (segments-Fired rs))
    ]
  ]

-- The prompts of a request are the prompts of the enabled rules that claim its model or its group, in the order of the
-- rules. Whether the global prompt is suppressed, the last enabled rule that claims the model decides: it is when that
-- rule does not inherit. Where none claims the model, the last that claims the group decides; where none claims either, it
-- is not suppressed.
pub resolve_rules-Fired :
    (group_id : Option ℕ) (model_id : ℕ) (rules : List PromptRule)
    → Fired group_id model_id rules (resolve_rules group_id model_id rules).0
      × ((r : PromptRule)
          → IsLast (ForModel model_id) rules r
          → (resolve_rules group_id model_id rules).1 ≡ not r.inherit)
      × ((r : PromptRule)
          → None (ForModel model_id) rules
          → IsLast (ForGroup group_id) rules r
          → (resolve_rules group_id model_id rules).1 ≡ not r.inherit)
      × (None (ForModel model_id) rules
          → None (ForGroup group_id) rules
          → (resolve_rules group_id model_id rules).1 ≡ false)
resolve_rules-Fired group_id model_id rules =
    let (segments, decided) = resolve_rules_lem group_id model_id rules in
    let by_model = for_model group_id model_id in
    let by_group = for_group group_id model_id group_id in
    (
      subst (Fired group_id model_id rules) (sym segments) (segments-Fired group_id model_id rules),
      λ r last.
          decided
          ∙ ap
              (λ m.
                suppressed m (last_where (λ r. r.enabled && matches_group group_id r) rules none))
              (last_where-IsLast by_model rules r last),
      λ r no_model last.
          decided
          ∙ ap
              (λ m.
                suppressed m (last_where (λ r. r.enabled && matches_group group_id r) rules none))
              (last_where-None by_model rules none no_model)
          ∙ ap (suppressed none) (last_where-IsLast by_group rules r last),
      λ no_model no_group.
          decided
          ∙ ap
              (λ m.
                suppressed m (last_where (λ r. r.enabled && matches_group group_id r) rules none))
              (last_where-None by_model rules none no_model)
          ∙ ap (suppressed none) (last_where-None by_group rules none no_group),
    )
