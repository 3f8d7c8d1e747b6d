-- ===== src/Provider/Json/Laws.antt =====
-- Reading what was built or written.
use pogu.Prelude.{
  ◌≡◌, refl, ap, [], ◌∷◌, if◌then◌else◌, Text, eq_text, eq_text_iff, Bool-cases, inl, inr, arith,
}
use pogu.Provider.Json.{Json, Array, Object, to_items, of_items, to_fields, of_fields, get, put}

pub of_items-to_items : (js : Array) → of_items (to_items js) ≡ js
of_items-to_items [] = refl
of_items-to_items (j ∷ js) = ap (λ x. j ∷ x) (of_items-to_items js)

pub of_fields-to_fields : (o : Object) → of_fields (to_fields o) ≡ o
of_fields-to_fields [] = refl
of_fields-to_fields ((key, j) ∷ o) = ap (λ x. (key, j) ∷ x) (of_fields-to_fields o)

pub get-put :
    (key other : Text) (j : Json) (o : Object)
    → get other (put key j o) ≡ (if eq_text key other then j else get other o)
get-put key other j [] = refl
get-put key other j ((k, old) ∷ o) = elim (Bool-cases (eq_text k key)) [
  | inl same ↦
      let named : eq_text k other ≡ eq_text key other =
        ap (λ x. eq_text x other) ((eq_text_iff k key).0 same) in
      ground (arith, same, named)
  | inr differ ↦
      let rest = get-put key other j o in
      elim (Bool-cases (eq_text key other)) [
        | inl mine ↦
            let named : eq_text k key ≡ eq_text k other =
              ap (eq_text k) ((eq_text_iff key other).0 mine) in
            ground (arith, differ, mine, named, rest)
        | inr apart ↦ ground (arith, differ, apart, rest)
      ]
]
