-- ===== src/Telemetry/Recorder/PromptRules.antt =====
-- The fired prompt rules of a request in internal/telemetry/telemetry.go: what RecordPromptRules writes is what
-- listPromptRules reads.
use pogu.Prelude.{
  eq_text_refl, ℕ, ◌+◌, ◌≡◌, ◌⊎◌, refl, sym, ap, ◌∙◌, List, [], ◌∷◌, ◌++◌, append-nil, some, Bool,
  true, false, not, ◌==◌, ltb, any, where_, map, Text, eq_text, eq_text_iff, arith, Bool-cases, inl,
  inr,
}
use pogu.Telemetry.{PromptRuleRef, PromptRow}
use pogu.Telemetry.Recorder.{Log, has_id, prompt_row, prompt_rows, record_prompt_rules}
use pogu.Telemetry.Recorder.Listing.{
  insert_sorted, insert_sorted-first, sorted_by, ref_of, list_prompt_rules,
}

abbrev of : Text → PromptRow → Bool
of id p = eq_text p.request_id id

abbrev earlier : PromptRow → PromptRow → Bool
earlier p q = ltb p.position q.position

where_-append :
    {A : Type 0} (p : A → Bool) (xs ys : List A) → where_ p (xs ++ ys) ≡ where_ p xs ++ where_ p ys
where_-append p [] ys = refl
where_-append p (x ∷ xs) ys = ground (arith, where_-append p xs ys)

where_-none : {A : Type 0} (p : A → Bool) (xs : List A) → where_ p (where_ (λ x. not (p x)) xs) ≡ []
where_-none p [] = refl
where_-none p (x ∷ xs) = ground (arith, where_-none p xs)

where_-apart :
    {A : Type 0} (p q : A → Bool)
    → ((x : A) → q x ≡ true → p x ≡ false)
    → (xs : List A) → where_ q (where_ (λ x. not (p x)) xs) ≡ where_ q xs
where_-apart p q apart [] = refl
where_-apart p q apart (x ∷ xs) = elim (Bool-cases (q x)) [
  | inl e ↦ rw (apart x e) (rw e (ap (λ l. x ∷ l) (where_-apart p q apart xs)))
  | inr e ↦ ground (arith, e, where_-apart p q apart xs)
]

-- The rows that are written are the ones of the request, and in order.
where_-prompt_rows :
    (id : Text) (i : ℕ) (segments : List PromptRuleRef)
    → where_ (of id) (prompt_rows id i segments) ≡ prompt_rows id i segments
where_-prompt_rows id i [] = refl
where_-prompt_rows id i (seg ∷ segments) =
    rw (eq_text_refl id)
      (ap (λ l. prompt_row id i seg ∷ l) (where_-prompt_rows id (i + 1) segments))

where_-prompt_rows_other :
    (id id' : Text) (i : ℕ) (segments : List PromptRuleRef)
    → eq_text id id' ≡ false
    → where_ (of id') (prompt_rows id i segments) ≡ []
where_-prompt_rows_other id id' i [] e = refl
where_-prompt_rows_other id id' i (seg ∷ segments) e =
    rw e (where_-prompt_rows_other id id' (i + 1) segments e)

sorted_by-prompt_rows :
    (id : Text) (i : ℕ) (segments : List PromptRuleRef)
    → sorted_by earlier (prompt_rows id i segments) ≡ prompt_rows id i segments
unfolding sorted_by
sorted_by-prompt_rows id i [] = refl
sorted_by-prompt_rows id i (seg ∷ []) = insert_sorted-first earlier (prompt_row id i seg) [] tt
sorted_by-prompt_rows id i (seg ∷ seg' ∷ segments) =
    ap (insert_sorted earlier (prompt_row id i seg))
      (sorted_by-prompt_rows id (i + 1) (seg' ∷ segments))
    ∙ insert_sorted-first earlier (prompt_row id i seg) (prompt_rows id (i + 1) (seg' ∷ segments))
        (ground arith)

ref_of-prompt_rows :
    (id : Text) (i : ℕ) (segments : List PromptRuleRef)
    → map ref_of (prompt_rows id i segments) ≡ segments
ref_of-prompt_rows id i [] = refl
ref_of-prompt_rows id i (seg ∷ segments) = elim (Bool-cases (seg.rule_id == 0)) [
  | inl e ↦
      let nil : 0 ≡ seg.rule_id = ground (arith, e) in
      rw e (
        ap
          (λ n.
            record { rule_id = n; rule_name = seg.rule_name }
            ∷ map ref_of (prompt_rows id (i + 1) segments))
          nil
        ∙ ap (λ l. seg ∷ l) (ref_of-prompt_rows id (i + 1) segments))
  | inr e ↦ rw e (ap (λ l. seg ∷ l) (ref_of-prompt_rows id (i + 1) segments))
]

of_apart :
    (id other : Text)
    → eq_text id other ≡ false
    → (p : PromptRow) → of other p ≡ true
    → of id p ≡ false
of_apart id other e p h = elim (Bool-cases (of id p)) [
  | inl mine ↦
      let same : id ≡ other =
        sym ((eq_text_iff p.request_id id).0 mine) ∙ (eq_text_iff p.request_id other).0 h in
      absurd (ground (arith, e, (eq_text_iff id other).1 same))
  | inr not_mine ↦ not_mine
]

-- The rows of the request, and those of another one, behind a write.
its_rows :
    (id : Text) (segments : List PromptRuleRef) (old : List PromptRow)
    → where_ (of id) (where_ (λ p. not (of id p)) old ++ prompt_rows id 0 segments)
      ≡ prompt_rows id 0 segments
its_rows id segments old =
    where_-append (of id) (where_ (λ p. not (of id p)) old) (prompt_rows id 0 segments)
    ∙ ap (λ l. l ++ where_ (of id) (prompt_rows id 0 segments)) (where_-none (of id) old)
    ∙ where_-prompt_rows id 0 segments

other_rows :
    (id other : Text) (segments : List PromptRuleRef) (old : List PromptRow)
    → eq_text id other ≡ false
    → where_ (of other) (where_ (λ p. not (of id p)) old ++ prompt_rows id 0 segments)
      ≡ where_ (of other) old
other_rows id other segments old e =
    where_-append (of other) (where_ (λ p. not (of id p)) old) (prompt_rows id 0 segments)
    ∙ ap (λ l. where_ (of other) (where_ (λ p. not (of id p)) old) ++ l)
        (where_-prompt_rows_other id other 0 segments e)
    ∙ append-nil (where_ (of other) (where_ (λ p. not (of id p)) old))
    ∙ where_-apart (of id) (of other) (of_apart id other e) old

-- What RecordPromptRules writes of a request in the tables, with the rows of an earlier call removed, is what
-- listPromptRules reads of it, in order; the prompt rules of another request are the same as before. The list is empty,
-- or the row of the request is there.
pub record_prompt_rules-list_prompt_rules :
    (id : Text) (segments : List PromptRuleRef) (l : Log)
    → (segments ≡ []) ⊎ (any (has_id id) l.requests ≡ true)
    → (l' : Log) × (record_prompt_rules id segments l ≡ some l')
      × (list_prompt_rules l' id ≡ segments)
      × ((other : Text)
          → eq_text id other ≡ false
          → list_prompt_rules l' other ≡ list_prompt_rules l other)
unfolding record_prompt_rules list_prompt_rules
record_prompt_rules-list_prompt_rules id [] l h = (
  _,
  refl,
  ap (λ rows. map ref_of (sorted_by earlier rows)) (where_-none (of id) l.prompts),
  λ other e.
      ap (λ rows. map ref_of (sorted_by earlier rows))
        (where_-apart (of id) (of other) (of_apart id other e) l.prompts),
)
record_prompt_rules-list_prompt_rules id (seg ∷ segments) l (inl e) = absurd cc
record_prompt_rules-list_prompt_rules id (seg ∷ segments) l (inr h) = (
  record l { prompts = where_ (λ p. not (of id p)) l.prompts ++ prompt_rows id 0 (seg ∷ segments) },
  rw h refl,
  ap (λ rows. map ref_of (sorted_by earlier rows)) (its_rows id (seg ∷ segments) l.prompts)
      ∙ ap (map ref_of) (sorted_by-prompt_rows id 0 (seg ∷ segments))
      ∙ ref_of-prompt_rows id 0 (seg ∷ segments),
  λ other e.
      ap (λ rows. map ref_of (sorted_by earlier rows))
        (other_rows id other (seg ∷ segments) l.prompts e),
)
