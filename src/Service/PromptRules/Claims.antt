-- ===== src/Service/PromptRules/Claims.antt =====
-- The claims of prompt rules on groups and models (internal/service/promptrules.go): the checks of a change against the
-- UNIQUE constraint on the targets.
use pogu.Prelude.{
  ℕ, ◌≡◌, ◌≢◌, refl, sym, ap, ◌∙◌, subst, List, [], ◌∷◌, ◌++◌, none, some, Bool, true, false, ◌&&◌,
  not, ◌==◌, leb, arith, where_, any, find, find-All, All, All-imp, ◌+◌, some-eq-some, Bool-cases,
  Option-cases, inl, inr, length, Text, eq_text, trim_space,
}
use pogu.Store.{Db, Table, TargetRow, TargetType, group, model, same_target, delete_where}
use pogu.Service.Types.{
  guard, guard-eq-ok, validation, Result, ok, err, ◌>>◌, >>=-eq-ok, Result-cases,
}
use pogu.Service.PromptRules.{
  PromptTarget, PromptRuleInput, validate_prompt_rule, valid_targets, validate_targets_exist,
  validate_targets_claimable, get_prompt_rule, Claim, claims, same_claim, insert_prompt_targets,
  typed, create_in, update_in, max_prompt_rule_name_runes, max_system_prompt_runes,
}

abbrev pub claim_of : TargetRow → Claim
claim_of t = (t.target_type, t.target_id)

-- UNIQUE (target_type, target_id)
abbrev pub UniqueClaims : List TargetRow → Type 0
UniqueClaims [] = Unit
UniqueClaims (t ∷ ts) = (any (claims (claim_of t)) ts ≡ false) × UniqueClaims ts

abbrev pub verdict {ℓ} : {A : Type ℓ} → Result A → Result (Unit {0})
verdict (ok a) = ok tt
verdict (err e) = err e

-- What the service checks before it writes the rule with an id, 0 for a new one.
abbrev pub checks : Db → ℕ → PromptRuleInput → Result (Unit {0})
checks db id in_ = do
  validate_prompt_rule in_
  validate_targets_exist db (typed in_.targets)
  validate_targets_claimable db (typed in_.targets) id

same_claim_comm : (c d : Claim) → same_claim c d ≡ same_claim d c
same_claim_comm (group, i) (group, j) = ground arith
same_claim_comm (group, i) (model, j) = refl
same_claim_comm (model, i) (group, j) = refl
same_claim_comm (model, i) (model, j) = ground arith

-- Every claim is apart from those behind it.
abbrev AreDistinct : List Claim → Type 0
AreDistinct [] = Unit
AreDistinct (c ∷ cs) = (any (same_claim c) cs ≡ false) × AreDistinct cs

-- The set `seen` keeps the targets apart, from each other and from what was seen before.
valid_targets-AreDistinct :
    (seen : List Claim) (ts : List PromptTarget)
    → valid_targets seen ts ≡ true
    → All (λ c. any (same_claim c) (typed ts) ≡ false) seen × AreDistinct (typed ts)
unfolding valid_targets typed
valid_targets-AreDistinct seen [] h = (none_claimed seen, tt)
  where
    none_claimed : (seen : List Claim) → All (λ c. false ≡ false) seen
    none_claimed [] = tt
    none_claimed (c ∷ seen) = (refl, none_claimed seen)
valid_targets-AreDistinct seen (t ∷ ts) h = elim (Option-cases t.target_type) [
  | inl e ↦ absurd (ground (arith, rw (e, valid_targets) at h))
  | inr (type, e) ↦
      let both : (not (any (same_claim (type, t.target_id)) seen)
            && valid_targets ((type, t.target_id) ∷ seen) ts)
          ≡ true =
        rw (e, valid_targets) at h in
      let ((first, others), distinct) =
        valid_targets-AreDistinct ((type, t.target_id) ∷ seen) ts (ground (arith, both)) in
      rw (e, typed)
        (
          unseen (type, t.target_id) seen (typed ts) (ground (arith, both)) others,
          (first, distinct),
        )
]
  where
    unseen :
        (c : Claim) (seen cs : List Claim)
        → any (same_claim c) seen ≡ false
        → All (λ d. any (same_claim d) cs ≡ false) seen
        → All (λ d. any (same_claim d) (c ∷ cs) ≡ false) seen
    unseen c [] cs h a = tt
    unseen c (d ∷ seen) cs h (x, a) =
        (ground (arith, h, x, same_claim_comm c d), unseen c seen cs (ground (arith, h)) a)

any-snoc :
    (p : TargetRow → Bool) (ts : List TargetRow) (t : TargetRow)
    → any p ts ≡ false
    → p t ≡ false
    → any p (ts ++ t ∷ []) ≡ false
any-snoc p [] t h l = ground (arith, l)
any-snoc p (s ∷ ts) t h l = ground (arith, h, l, any-snoc p ts t)

any-where_ :
    (p q : TargetRow → Bool) (ts : List TargetRow) → any p ts ≡ false → any p (where_ q ts) ≡ false
any-where_ p q [] h = refl
any-where_ p q (t ∷ ts) h = ground (arith, h, any-where_ p q ts)

abbrev AllFree : List Claim → List TargetRow → Type 0
AllFree cs ts = All (λ c. any (claims c) ts ≡ false) cs

AllFree-snoc :
    (c : Claim) (cs : List Claim) (ts : List TargetRow) (t : TargetRow)
    → claim_of t ≡ c
    → any (same_claim c) cs ≡ false
    → AllFree cs ts
    → AllFree cs (ts ++ t ∷ [])
AllFree-snoc c [] ts t e h a = tt
AllFree-snoc c (d ∷ cs) ts t e h (x, a) = (
  any-snoc (claims d) ts t x (ap (λ c. same_claim c d) e ∙ ground (arith, h)),
  AllFree-snoc c cs ts t e (ground (arith, h)) a,
)

-- Distinct claims that are free are inserted.
insert_prompt_targets_fits :
    (rule_id : ℕ) (cs : List Claim) (t : Table TargetRow)
    → AreDistinct cs
    → AllFree cs t.rows
    → (t' : Table TargetRow) × (insert_prompt_targets rule_id cs t ≡ ok t')
unfolding insert_prompt_targets
insert_prompt_targets_fits rule_id [] t d f = (t, refl)
insert_prompt_targets_fits rule_id ((type, id) ∷ cs) t (apart, d) (free, f) =
    let made : TargetRow = record {
      id = t.last_id + 1;
      rule_id = rule_id;
      target_type = type;
      target_id = id;
    } in
    let (t', e) =
      insert_prompt_targets_fits rule_id cs
        (record { rows = t.rows ++ made ∷ []; last_id = t.last_id + 1 }) d
        (AllFree-snoc (type, id) cs t.rows made refl apart f) in
    (t', rw (free, insert_prompt_targets) e)

find-none : (p : TargetRow → Bool) (ts : List TargetRow) → find p ts ≡ none → any p ts ≡ false
find-none p [] h = refl
find-none p (t ∷ ts) h = elim (Bool-cases (p t)) [
  | inl e ↦ absurd (ground (arith, rw e at h))
  | inr e ↦ rw e (find-none p ts (rw e at h))
]

-- A claim that is free or claimed by the rule.
abbrev IsOpen : List TargetRow → ℕ → Claim → Type 0
IsOpen ts id c =
    (owner : TargetRow) → find (claims c) ts ≡ some owner → (owner.rule_id == id) ≡ true

validate_targets_claimable-IsOpen :
    (db : Db) (cs : List Claim) (id : ℕ) (u : Unit {0})
    → validate_targets_claimable db cs id ≡ ok u
    → All (IsOpen db.targets.rows id) cs
unfolding validate_targets_claimable
validate_targets_claimable-IsOpen db [] id u h = tt
validate_targets_claimable-IsOpen db (c ∷ cs) id u h =
    elim (Option-cases (find (claims c) db.targets.rows)) [
      | inl e ↦ (
        λ owner found. absurd (ground (arith, e, found)),
        validate_targets_claimable-IsOpen db cs id u (rw (e, validate_targets_claimable) at h),
      )
      | inr (owner, e) ↦ elim (Bool-cases (owner.rule_id == id)) [
        | inl own ↦ (
          λ owner' found. subst (λ o. (o.rule_id == id) ≡ true) (some-eq-some (sym e ∙ found)) own,
          validate_targets_claimable-IsOpen db cs id u
              (rw (e, own, validate_targets_claimable) at h),
        )
        | inr other ↦ absurd (ground (arith, rw (e, other, validate_targets_claimable) at h))
      ]
    ]

claims-eq : (c : Claim) (t : TargetRow) → claims c t ≡ true → c ≡ claim_of t
claims-eq (type, i) t h = same type t.target_type t.target_id h
  where
    same :
        (a b : TargetType) (j : ℕ)
        → (same_target b a && j == i) ≡ true
        → ◌≡◌ {A = Claim} (a, i) (b, j)
    same group group j h = let e : i ≡ j = ground (arith, h) in ap (λ k. (group, k)) e
    same model model j h = let e : i ≡ j = ground (arith, h) in ap (λ k. (model, k)) e
    same group model j h = cc
    same model group j h = cc

-- No new rule has the id 0.
IsOpen-new :
    (ts : List TargetRow) (c : Claim)
    → All (λ t. t.rule_id ≢ 0) ts
    → IsOpen ts 0 c
    → any (claims c) ts ≡ false
IsOpen-new ts c positive open_ = elim (Option-cases (find (claims c) ts)) [
  | inl e ↦ find-none (claims c) ts e
  | inr (owner, e) ↦
      absurd
        (find-All (λ t. t.rule_id ≢ 0) (claims c) ts positive e (ground (arith, open_ owner e)))
]

-- Behind the deletion of the old targets of a rule, what it may claim is free.
IsOpen-deleted :
    (id : ℕ) (ts : List TargetRow) (c : Claim)
    → UniqueClaims ts
    → IsOpen ts id c
    → any (claims c) (where_ (λ t. not (t.rule_id == id)) ts) ≡ false
IsOpen-deleted id [] c u open_ = refl
IsOpen-deleted id (t ∷ ts) c (apart, u) open_ = elim (Bool-cases (claims c t)) [
  | inl e ↦
      let own : (t.rule_id == id) ≡ true = open_ t (rw e refl) in
      rw own (
        any-where_ (claims c) (λ t. not (t.rule_id == id)) ts
          (subst (λ d. any (claims d) ts ≡ false) (sym (claims-eq c t e)) apart))
  | inr e ↦
      let rest = IsOpen-deleted id ts c u (λ owner found. open_ owner (rw e found)) in
      elim (Bool-cases (t.rule_id == id)) [ inl gone ↦ rw gone rest | inr kept ↦ rw (kept, e) rest ]
]

validate_prompt_rule-AreDistinct :
    (in_ : PromptRuleInput) (name : Text)
    → validate_prompt_rule in_ ≡ ok name
    → AreDistinct (typed in_.targets)
unfolding validate_prompt_rule
validate_prompt_rule-AreDistinct in_ name h =
    let (_, _, h1) = >>=-eq-ok (guard (not (eq_text (trim_space in_.name) [])) validation) _ h in
    let (_, _, h2) =
      >>=-eq-ok (guard (leb (length (trim_space in_.name)) max_prompt_rule_name_runes) validation) _
        h1 in
    let (_, _, h3) =
      >>=-eq-ok (guard (leb (length in_.prompt) max_system_prompt_runes) validation) _ h2 in
    let (_, _, h4) = >>=-eq-ok (guard (not (length in_.targets == 0)) validation) _ h3 in
    let (_, valid, _) = >>=-eq-ok (guard (valid_targets [] in_.targets) validation) _ h4 in
    (valid_targets-AreDistinct [] in_.targets
      (guard-eq-ok (valid_targets [] in_.targets) validation valid)).1

module _ (db : Db) (in_ : PromptRuleInput) (unique : UniqueClaims db.targets.rows) where
  create_in-checks :
      All (λ t. t.rule_id ≢ 0) db.targets.rows → verdict (create_in db in_) ≡ checks db 0 in_
  unfolding create_in
  create_in-checks positive = elim (Result-cases (validate_prompt_rule in_)) [
    | inr (e, h) ↦ rw (h, create_in) refl
    | inl (name, valid) ↦ elim (Result-cases (validate_targets_exist db (typed in_.targets))) [
      | inr (e, h) ↦ rw (valid, h, create_in) refl
      | inl (_, exist) ↦ elim (Result-cases (validate_targets_claimable db (typed in_.targets) 0)) [
        | inr (e, h) ↦ rw (valid, exist, h, create_in) refl
        | inl (_, open_) ↦
            let (t, inserted) =
              insert_prompt_targets_fits (db.rules.last_id + 1) (typed in_.targets) db.targets
                (validate_prompt_rule-AreDistinct in_ name valid)
                (All-imp (IsOpen db.targets.rows 0) (λ c. any (claims c) db.targets.rows ≡ false)
                  (λ c. IsOpen-new db.targets.rows c positive) (typed in_.targets)
                  (validate_targets_claimable-IsOpen db (typed in_.targets) 0 _ open_)) in
            rw (valid, exist, open_, inserted, create_in) refl
      ]
    ]
  ]

  update_in-checks :
      (id : ℕ) → verdict (update_in db id in_) ≡ (get_prompt_rule db id >> checks db id in_)
  unfolding update_in
  update_in-checks id = elim (Result-cases (get_prompt_rule db id)) [
    | inr (e, h) ↦ rw (h, update_in) refl
    | inl (_, found) ↦ elim (Result-cases (validate_prompt_rule in_)) [
      | inr (e, h) ↦ rw (found, h, update_in) refl
      | inl (name, valid) ↦ elim (Result-cases (validate_targets_exist db (typed in_.targets))) [
        | inr (e, h) ↦ rw (found, valid, h, update_in) refl
        | inl (_, exist) ↦
            elim (Result-cases (validate_targets_claimable db (typed in_.targets) id)) [
              | inr (e, h) ↦ rw (found, valid, exist, h, update_in) refl
              | inl (_, open_) ↦
                  let (t, inserted) =
                    insert_prompt_targets_fits id (typed in_.targets)
                      (delete_where (λ t. t.rule_id == id) db.targets)
                      (validate_prompt_rule-AreDistinct in_ name valid)
                      (All-imp (IsOpen db.targets.rows id)
                        (λ c.
                          any (claims c) (where_ (λ t. not (t.rule_id == id)) db.targets.rows)
                          ≡ false)
                        (λ c. IsOpen-deleted id db.targets.rows c unique) (typed in_.targets)
                        (validate_targets_claimable-IsOpen db (typed in_.targets) id _ open_)) in
                  rw (found, valid, exist, open_, inserted, update_in) refl
            ]
      ]
    ]
  ]

-- The UNIQUE constraint on the targets never refuses what the checks of the service let through: a new rule, or a
-- change of a rule that there is, is refused exactly when a check refuses it, and with its error, that of a target
-- claimed by another rule or named twice included. No group or model is claimed twice before, and no rule has the id 0.
pub changes-checks :
    (db : Db) (in_ : PromptRuleInput) (id : ℕ)
    → UniqueClaims db.targets.rows
    → All (λ t. t.rule_id ≢ 0) db.targets.rows
    → (verdict (create_in db in_) ≡ checks db 0 in_)
      × (verdict (update_in db id in_) ≡ (get_prompt_rule db id >> checks db id in_))
changes-checks db in_ id unique positive =
    (create_in-checks db in_ unique positive, update_in-checks db in_ unique id)
