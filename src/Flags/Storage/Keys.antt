-- ===== src/Flags/Storage/Keys.antt =====
-- backend/app/services/flags.py: the variations that a query without an order gives.
use cohort_switch.Prelude.{
  ◌≡◌, ◌≢◌, refl, sym, ap, ◌∙◌, subst, String, true, false, List, [], ◌∷◌, map, inl, inr, All,
  Bool-cases, str_eq, eq_iff, elem, keys,
}
use cohort_switch.Prelude.Reordering.{Reordering, IsDistinct, map-Reordering, IsDistinct-Reordering}
use cohort_switch.Evaluation.Value.{Value}
use cohort_switch.Database.{FlagVariation}
use cohort_switch.Flags.Building.{are_distinct_texts}
use cohort_switch.Flags.Storage.{db_variation, entries_of}
use cohort_switch.Flags.Storage.Entries.{entries_of_distinct}
use cohort_switch.Flags.Storage.Parts.{map-map_same}

not_elem-keys :
    (k : String) (d : List (String × Value)) → elem k (keys d) ≡ false → All (λ e. k ≢ e.0) d
not_elem-keys k [] h = tt
not_elem-keys k ((j, v) ∷ d) h = elim (Bool-cases (str_eq j k)) [
  | inl same ↦ absurd (let h' = rw same at h in cc)
  | inr other ↦
      (λ e. absurd (let same = (eq_iff j k).1 (sym e) in cc), not_elem-keys k d (rw other at h))
]

keys-not_elem :
    (k : String) (d : List (String × Value)) → All (λ e. k ≢ e.0) d → elem k (keys d) ≡ false
keys-not_elem k [] h = refl
keys-not_elem k ((j, v) ∷ d) h = elim (Bool-cases (str_eq j k)) [
  | inl same ↦ absurd (h.0 (sym ((eq_iff j k).0 same)))
  | inr other ↦ rw other (keys-not_elem k d h.1)
]

pub IsDistinct-texts :
    (d : List (String × Value)) → are_distinct_texts (keys d) ≡ true → IsDistinct (λ e. e.0) d
unfolding are_distinct_texts
IsDistinct-texts [] h = tt
IsDistinct-texts ((k, v) ∷ d) h = elim (Bool-cases (elem k (keys d))) [
  | inl twice ↦ absurd (let h' = rw twice at h in cc)
  | inr once ↦ (not_elem-keys k d once, IsDistinct-texts d (rw once at h))
]

texts-IsDistinct :
    (d : List (String × Value)) → IsDistinct (λ e. e.0) d → are_distinct_texts (keys d) ≡ true
unfolding are_distinct_texts
texts-IsDistinct [] h = refl
texts-IsDistinct ((k, v) ∷ d) h = rw (keys-not_elem k d h.0) (texts-IsDistinct d h.1)

-- Variations compile to the same entries, in the order in which they are loaded.
pub entries_of-Reordering :
    (variations : List (String × Value)) (rows : List FlagVariation)
    → are_distinct_texts (keys variations) ≡ true
    → Reordering (map db_variation variations) rows
    → (d : List (String × Value)) × (entries_of [] rows ≡ d) × Reordering variations d
entries_of-Reordering variations rows distinct r =
    let entry : FlagVariation → String × Value = λ row. (row.key, row.value) in
    let d = map entry rows in
    let same : Reordering variations d =
      subst (λ s. Reordering s d) (map-map_same db_variation entry (λ _. refl) variations)
        (map-Reordering entry (map db_variation variations) rows r) in
    let back = map-map_same entry db_variation (λ _. refl) rows in
    let distinct' =
      texts-IsDistinct d (
        IsDistinct-Reordering (λ e. e.0) variations d same
          (IsDistinct-texts variations distinct)) in
    (d, ap (entries_of []) (sym back) ∙ entries_of_distinct d distinct', same)
