-- ===== src/Flags/Storage/Entries.antt =====
-- backend/app/services/flags.py: the dict of the variations, from a payload and from rows.
use cohort_switch.Prelude.{
  ◌≡◌, refl, sym, ◌∙◌, ap, String, true, false, List, [], ◌∷◌, ◌++◌, map, inl, inr, All, Bool-cases,
  str_eq, eq_iff, elem, keys,
}
use mathlib.Core.List.{append-nil, append_assoc}
use cohort_switch.Schemas.{VariationInput}
use cohort_switch.Evaluation.Value.{Value}
use cohort_switch.Flags.Building.{are_distinct_texts, set_entry, add_entries, variation_keys}
use cohort_switch.Flags.Storage.{entries_of, db_variation}

abbrev Entries : Type 0
Entries = List (String × Value)

set_entry-new :
    (k : String) (v : Value) (d : Entries)
    → elem k (keys d) ≡ false
    → set_entry k v d ≡ d ++ ((k, v) ∷ [])
unfolding set_entry
set_entry-new k v [] h = refl
set_entry-new k v ((j, w) ∷ d) h = elim (Bool-cases (str_eq j k)) [
  | inl same ↦ absurd (let h' = rw same at h in cc)
  | inr other ↦ rw other (ap (λ r. (j, w) ∷ r) (set_entry-new k v d (rw other at h)))
]

elem-extended :
    (t k : String) (v : Value) (d : Entries)
    → elem t (keys d) ≡ false
    → str_eq k t ≡ false
    → elem t (keys (d ++ ((k, v) ∷ []))) ≡ false
elem-extended t k v [] h ne = rw ne refl
elem-extended t k v ((j, w) ∷ d) h ne = elim (Bool-cases (str_eq j t)) [
  | inl same ↦ absurd (let h' = rw same at h in cc)
  | inr other ↦ rw other (elem-extended t k v d (rw other at h) ne)
]

str_eq_comm : (s t : String) → str_eq s t ≡ false → str_eq t s ≡ false
str_eq_comm s t h = elim (Bool-cases (str_eq t s)) [
  | inl same ↦ absurd (let e = (eq_iff s t).1 (sym ((eq_iff t s).0 same)) in cc)
  | inr other ↦ other
]

-- No key of the second dict stands in the first.
abbrev AreNew : Entries → Entries → Type 0
AreNew d = All (λ e. elem e.0 (keys d) ≡ false)

AreNew-extended :
    (k : String) (v : Value) (d rest : Entries)
    → elem k (keys rest) ≡ false
    → AreNew d rest
    → AreNew (d ++ ((k, v) ∷ [])) rest
AreNew-extended k v d [] h new = tt
AreNew-extended k v d ((j, w) ∷ rest) h new = elim (Bool-cases (str_eq j k)) [
  | inl same ↦ absurd (let h' = rw same at h in cc)
  | inr other ↦ (
    elem-extended j k v d new.0 (str_eq_comm j k other),
    AreNew-extended k v d rest (rw other at h) new.1,
  )
]

entries_of-append :
    (d rest : Entries)
    → are_distinct_texts (keys rest) ≡ true
    → AreNew d rest
    → entries_of d (map db_variation rest) ≡ d ++ rest
unfolding entries_of are_distinct_texts
entries_of-append d [] distinct new = sym (append-nil d)
entries_of-append d ((k, v) ∷ rest) distinct new = elim (Bool-cases (elem k (keys rest))) [
  | inl twice ↦ absurd (let h' = rw twice at distinct in cc)
  | inr once ↦
      ap (λ e. entries_of e (map db_variation rest)) (set_entry-new k v d new.0)
      ∙ entries_of-append (d ++ ((k, v) ∷ [])) rest (rw once at distinct)
          (AreNew-extended k v d rest once new.1)
      ∙ append_assoc d ((k, v) ∷ []) rest
]

AreNew-empty : (d : Entries) → AreNew [] d
AreNew-empty [] = tt
AreNew-empty (e ∷ d) = (refl, AreNew-empty d)

-- Entries with distinct keys are stored and loaded in their order.
pub entries_of_distinct :
    (d : Entries) → are_distinct_texts (keys d) ≡ true → entries_of [] (map db_variation d) ≡ d
entries_of_distinct d distinct = entries_of-append [] d distinct (AreNew-empty d)

abbrev entry : VariationInput → String × Value
entry i = (i.key, i.value)

add_entries-entries_of :
    (d : Entries) (inputs : List VariationInput)
    → add_entries d inputs ≡ entries_of d (map db_variation (map entry inputs))
unfolding add_entries entries_of
add_entries-entries_of d [] = refl
add_entries-entries_of d (i ∷ inputs) = add_entries-entries_of (set_entry i.key i.value d) inputs

keys-entries : (inputs : List VariationInput) → keys (map entry inputs) ≡ variation_keys inputs
keys-entries [] = refl
keys-entries (i ∷ inputs) = ap (λ r. i.key ∷ r) (keys-entries inputs)

-- The keys of the dict of a payload's variations are distinct if the payload's are.
pub add_entries-distinct :
    (inputs : List VariationInput)
    → are_distinct_texts (variation_keys inputs) ≡ true
    → are_distinct_texts (keys (add_entries [] inputs)) ≡ true
add_entries-distinct inputs distinct =
    let named : are_distinct_texts (keys (map entry inputs)) ≡ true =
      rw (keys-entries inputs) distinct in
    rw (add_entries-entries_of [] inputs, entries_of_distinct (map entry inputs) named) named
