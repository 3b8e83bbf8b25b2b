-- ===== src/Flags/Lookup/Dicts.antt =====
-- backend/app/services/flags.py: dicts whose every value is good under its key.
use cohort_switch.Prelude.{
  ◌≡◌, refl, sym, subst, String, true, some, List, [], ◌∷◌, inl, inr, Bool-cases, str_eq, eq_iff,
  eq_refl, lookup, elem, All, keys, ◌⊎◌,
}
use cohort_switch.Flags.Building.{set_entry}
use cohort_switch.Flags.Store.Lists.{some-injective}

module _ {V : Type 0} where
  -- Each value is good under its key.
  abbrev pub AreGood {κ} : (String → V → Type κ) → List (String × V) → Type κ
  AreGood Good = All (λ x. Good x.0 x.1)

  pub AreGood-lookup {κ} :
      (Good : String → V → Type κ) (k : String) (d : List (String × V)) {v : V}
      → AreGood Good d
      → lookup k d ≡ some v
      → Good k v
  AreGood-lookup Good k [] good h = absurd (cc)
  AreGood-lookup Good k ((j, w) ∷ d) good h = elim (Bool-cases (str_eq j k)) [
    | inl same ↦
        subst (Good k) (some-injective (rw same at h))
          (subst (λ i. Good i w) ((eq_iff j k).0 same) good.0)
    | inr other ↦ AreGood-lookup Good k d good.1 (rw other at h)
  ]

  pub AreGood-set_entry {κ} :
      (Good : String → V → Type κ) (j : String) (v : V) (d : List (String × V))
      → AreGood Good d
      → Good j v
      → AreGood Good (set_entry j v d)
  unfolding set_entry
  AreGood-set_entry Good j v [] good h = (h, tt)
  AreGood-set_entry Good j v ((i, w) ∷ d) good h = elim (Bool-cases (str_eq i j)) [
    | inl at ↦ rw at (subst (λ s. Good s v) (sym ((eq_iff i j).0 at)) h, good.1)
    | inr away ↦ rw away (good.0, AreGood-set_entry Good j v d good.1 h)
  ]

  -- The entry is there, and those before it still are.
  pub elem-set_entry :
      (j k : String) (v : V) (d : List (String × V))
      → (str_eq j k ≡ true) ⊎ (elem k (keys d) ≡ true)
      → elem k (keys (set_entry j v d)) ≡ true
  unfolding set_entry
  elem-set_entry j k v [] (inl h) = rw h refl
  elem-set_entry j k v [] (inr h) = absurd (cc)
  elem-set_entry j k v ((i, u) ∷ d) h = elim (Bool-cases (str_eq i j)) [
    | inl at ↦ elim (Bool-cases (str_eq i k)) [
      | inl same ↦ rw (at, same) refl
      | inr other ↦
          rw (at, other)
            (elim h [
              | inl e ↦
                  absurd (let e' = subst (λ s. str_eq s k ≡ true) (sym ((eq_iff i j).0 at)) e in cc)
              | inr e ↦ rw other at e
            ])
    ]
    | inr away ↦ elim (Bool-cases (str_eq i k)) [
      | inl same ↦ rw (away, same) refl
      | inr other ↦
          rw (away, other)
            (elem-set_entry j k v d (elim h [ inl e ↦ inl e | inr e ↦ inr (rw other at e) ]))
    ]
  ]

pub lookup-set_entry {ℓ} :
    {V : Type ℓ}
    → (key : String) (v : V) (d : List (String × V)) → lookup key (set_entry key v d) ≡ some v
unfolding set_entry
lookup-set_entry key v [] = rw (eq_refl key) refl
lookup-set_entry key v ((k, w) ∷ d) = elim (Bool-cases (str_eq k key)) [
  | inl same ↦ rw same (rw same refl)
  | inr other ↦ rw other (rw other (lookup-set_entry key v d))
]
