-- ===== src/Cache/Texts.antt =====
-- backend/app/services/cache.py: the keys of a batch, once each, and those that are missing.
use cohort_switch.Prelude.{
  ◌≡◌, refl, sym, ap, ◌∙◌, subst, String, Bool, true, false, ◌||◌, List, [], ◌∷◌, inl, inr,
  Bool-cases, str_eq, eq_iff, elem, is_nonempty, ◌⊎◌,
}
use cohort_switch.Flags.Tables.{select_where}
use cohort_switch.Cache.{unique_keys, text_leb, insert_text, sorted_texts}

-- Each key of the list is in the result, unless it was seen before.
pub elem-unique_keys :
    (k : String) (seen ks : List String)
    → elem k ks ≡ true
    → (elem k seen ≡ true) ⊎ (elem k (unique_keys seen ks) ≡ true)
unfolding unique_keys
elem-unique_keys k seen [] h = absurd (cc)
elem-unique_keys k seen (x ∷ ks) h = elim (Bool-cases (str_eq x k)) [
  | inl same ↦ elim (Bool-cases (elem x seen)) [
    | inl old ↦ inl (subst (λ s. elem s seen ≡ true) ((eq_iff x k).0 same) old)
    | inr new ↦ inr (rw (new, same) refl)
  ]
  | inr other ↦ elim (elem-unique_keys k (x ∷ seen) ks (rw other at h)) [
    | inl i ↦ inl (rw other at i)
    | inr i ↦
        inr (elim (Bool-cases (elem x seen)) [ inl old ↦ rw old i | inr new ↦ rw (new, other) i ])
  ]
]

or_true : (a : Bool) {b : Bool} → b ≡ true → (a || b) ≡ true
or_true true h = refl
or_true false h = h

pub elem_of-unique_keys :
    (k : String) (seen ks : List String) → elem k (unique_keys seen ks) ≡ true → elem k ks ≡ true
unfolding unique_keys
elem_of-unique_keys k seen [] h = absurd (cc)
elem_of-unique_keys k seen (x ∷ ks) h = elim (Bool-cases (elem x seen)) [
  | inl old ↦ or_true (str_eq x k) (elem_of-unique_keys k (x ∷ seen) ks (rw old at h))
  | inr new ↦ elim (Bool-cases (str_eq x k)) [
    | inl same ↦ rw same refl
    | inr other ↦ rw other (elem_of-unique_keys k (x ∷ seen) ks (rw (new, other) at h))
  ]
]

or_swap : (a b c : Bool) → (a || (b || c)) ≡ (b || (a || c))
or_swap true true c = refl
or_swap true false c = refl
or_swap false true c = refl
or_swap false false c = refl

elem-insert_text :
    (k x : String) (xs : List String) → elem k (insert_text x xs) ≡ (str_eq x k || elem k xs)
elem-insert_text k x [] = refl
elem-insert_text k x (y ∷ ys) = elim (Bool-cases (text_leb x y)) [
  | inl low ↦ rw low refl
  | inr high ↦ rw high (
      ap (λ b. str_eq y k || b) (elem-insert_text k x ys)
      ∙ or_swap (str_eq y k) (str_eq x k) (elem k ys))
]

pub elem-sorted_texts : (k : String) (xs : List String) → elem k (sorted_texts xs) ≡ elem k xs
elem-sorted_texts k [] = refl
elem-sorted_texts k (x ∷ xs) =
    elem-insert_text k x (sorted_texts xs) ∙ ap (λ b. str_eq x k || b) (elem-sorted_texts k xs)

module _ (p : String → Bool) where
  pub elem-select_where :
      (k : String) (xs : List String)
      → elem k xs ≡ true
      → p k ≡ true
      → elem k (select_where p xs) ≡ true
  elem-select_where k [] h t = absurd (cc)
  elem-select_where k (x ∷ xs) h t = elim (Bool-cases (str_eq x k)) [
    | inl same ↦ rw (subst (λ s. p s ≡ true) (sym ((eq_iff x k).0 same)) t, same) refl
    | inr other ↦ elim (Bool-cases (p x)) [
      | inl hit ↦ rw (hit, other) (elem-select_where k xs (rw other at h) t)
      | inr miss ↦ rw miss (elem-select_where k xs (rw other at h) t)
    ]
  ]

  pub elem_of-select_where :
      (k : String) (xs : List String)
      → elem k (select_where p xs) ≡ true
      → (elem k xs ≡ true) × (p k ≡ true)
  elem_of-select_where k [] h = absurd (cc)
  elem_of-select_where k (x ∷ xs) h = elim (Bool-cases (p x)) [
    | inl hit ↦ elim (Bool-cases (str_eq x k)) [
      | inl same ↦ (rw same refl, subst (λ s. p s ≡ true) ((eq_iff x k).0 same) hit)
      | inr other ↦ let (i, t) = elem_of-select_where k xs (rw (hit, other) at h) in (rw other i, t)
    ]
    | inr miss ↦
        let (i, t) = elem_of-select_where k xs (rw miss at h) in (or_true (str_eq x k) i, t)
  ]

pub elem_of_empty : (k : String) (xs : List String) → is_nonempty xs ≡ false → elem k xs ≡ false
elem_of_empty k [] h = refl
elem_of_empty k (x ∷ xs) h = absurd (cc)
