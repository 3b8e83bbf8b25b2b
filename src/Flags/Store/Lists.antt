-- ===== src/Flags/Store/Lists.antt =====
-- `UPDATE ... WHERE` and `SELECT ... WHERE` on a table.
use cohort_switch.Prelude.{
  ◌≡◌, refl, subst, ◌∙◌, Bool, true, false, Option, none, some, List, [], ◌∷◌, inl, inr, All, any,
  Bool-cases, if◌then◌else◌, IsIn, sym,
}
use cohort_switch.Errors.{Error, ok}
use cohort_switch.Flags.Tables.{update_where, find_where, select_where, or_raise}

module _ {ℓ κ} {A : Type ℓ} (P Q : A → Type κ) (p : A → Bool) (f : A → A) where
  -- `Q` holds of every row after an update that makes it hold of the rows that it changes.
  pub All-update_where :
      ((x : A) → P x → p x ≡ true → Q (f x))
      → ((x : A) → P x → p x ≡ false → Q x)
      → (xs : List A) → All P xs
      → All Q (update_where p f xs)
  All-update_where hit miss [] h = tt
  All-update_where hit miss (x ∷ xs) h = (
    elim (Bool-cases (p x)) [
      | inl hit_case ↦ rw hit_case (hit x h.0 hit_case)
      | inr miss_case ↦ rw miss_case (miss x h.0 miss_case)
    ],
    All-update_where hit miss xs h.1,
  )

pub some-injective {ℓ} : {A : Type ℓ} {a b : A} → some a ≡ some b → a ≡ b
some-injective h = cc

pub or_raise-eq-ok {ℓ} :
    {A : Type ℓ} (o : Option A) (e : Error) {a : A} → or_raise o e ≡ ok a → o ≡ some a
or_raise-eq-ok none e h = absurd (cc)
or_raise-eq-ok (some a) e h = cc

-- No row passes a test that every row fails.
pub any_of_none {ℓ} :
    {A : Type ℓ} (p : A → Bool) (xs : List A) → All (λ x. p x ≡ false) xs → any p xs ≡ false
any_of_none p [] h = refl
any_of_none p (x ∷ xs) h = rw h.0 (any_of_none p xs h.1)

abbrev NoneOr {ℓ} : {A : Type ℓ} → (A → Bool) → Option A → Type 0
NoneOr p none = Unit
NoneOr p (some a) = p a ≡ true

pub find_where-test {ℓ} :
    {A : Type ℓ} (p : A → Bool) (xs : List A) {a : A} → find_where p xs ≡ some a → p a ≡ true
find_where-test p [] h = absurd (cc)
find_where-test p (x ∷ xs) h = elim (Bool-cases (p x)) [
  | inl hit_case ↦ subst (λ o. NoneOr p o) (rw hit_case at h) hit_case
  | inr miss_case ↦ find_where-test p xs (rw miss_case at h)
]

-- A row that a SELECT finds satisfies what every row satisfies.
pub All-find_where {ℓ κ} :
    {A : Type ℓ} (P : A → Type κ) (p : A → Bool) (xs : List A) {a : A}
    → All P xs
    → find_where p xs ≡ some a
    → P a
All-find_where P p [] h e = absurd (cc)
All-find_where P p (x ∷ xs) h e = elim (Bool-cases (p x)) [
  | inl hit_case ↦ subst P (some-injective (rw hit_case at e)) h.0
  | inr miss_case ↦ All-find_where P p xs h.1 (rw miss_case at e)
]

module _ {ℓ κ} {A : Type ℓ} (P : A → Type κ) (p : A → Bool) where
  -- What holds of every row holds of those that a SELECT finds.
  pub All-select_where : (xs : List A) → All P xs → All P (select_where p xs)
  All-select_where [] h = tt
  All-select_where (x ∷ xs) h = elim (Bool-cases (p x)) [
    | inl hit_case ↦ rw hit_case (h.0, All-select_where xs h.1)
    | inr miss_case ↦ rw miss_case (All-select_where xs h.1)
  ]

module _ {ℓ} {A : Type ℓ} (p q : A → Bool) (f : A → A) where
  test_kept : ((x : A) → p (f x) ≡ p x) → (x : A) → p (if q x then f x else x) ≡ p x
  test_kept same x = elim (Bool-cases (q x)) [ inl hit ↦ rw hit (same x) | inr miss ↦ rw miss refl ]

  -- A SELECT whose test the update does not touch finds the same row, updated.
  pub find_where-update_where :
      ((x : A) → p (f x) ≡ p x)
      → (xs : List A) {a : A} → find_where p xs ≡ some a
      → find_where p (update_where q f xs) ≡ some (if q a then f a else a)
  find_where-update_where same [] h = absurd (cc)
  find_where-update_where same (x ∷ xs) h = elim (Bool-cases (p x)) [
    | inl hit_case ↦
        let e = some-injective (rw hit_case at h) in
        subst (λ b. find_where p (update_where q f (x ∷ xs)) ≡ some (if q b then f b else b)) e
          (rw (test_kept same x ∙ hit_case) refl)
    | inr miss_case ↦
        rw (test_kept same x ∙ miss_case) (find_where-update_where same xs (rw miss_case at h))
  ]

pub find_where_of_any {ℓ} :
    {A : Type ℓ} (p q : A → Bool)
    → ((x : A) → q x ≡ true → p x ≡ true)
    → (xs : List A) → any q xs ≡ true
    → (a : A) × (find_where p xs ≡ some a)
find_where_of_any p q weaker [] h = absurd (cc)
find_where_of_any p q weaker (x ∷ xs) h = elim (Bool-cases (p x)) [
  | inl hit_case ↦ (x, rw hit_case refl)
  | inr miss_case ↦ elim (Bool-cases (q x)) [
    | inl both ↦ absurd (let e = weaker x both in cc)
    | inr neither ↦ rw miss_case (find_where_of_any p q weaker xs (rw neither at h))
  ]
]

module _ {A : Type 0} where
  pub mem-find_where : (p : A → Bool) (xs : List A) {a : A} → find_where p xs ≡ some a → IsIn a xs
  mem-find_where p [] h = absurd (cc)
  mem-find_where p (x ∷ xs) h = elim (Bool-cases (p x)) [
    | inl hit ↦ inl (sym (some-injective (rw hit at h)))
    | inr miss ↦ inr (mem-find_where p xs (rw miss at h))
  ]

  -- A SELECT finds a row that passes its test if there is one.
  pub find_where-mem :
      (p : A → Bool) (xs : List A) (a : A)
      → IsIn a xs
      → p a ≡ true
      → (b : A) × (find_where p xs ≡ some b)
  find_where-mem p [] a i h = elim i [ ]
  find_where-mem p (x ∷ xs) a i h = elim (Bool-cases (p x)) [
    | inl hit ↦ (x, rw hit refl)
    | inr miss ↦ rw miss (elim i [
      | inl e ↦ absurd (let e' = subst (λ y. p y ≡ true) e h in cc)
      | inr j ↦ find_where-mem p xs a j h
    ])
  ]

  pub select_where-mem :
      (p : A → Bool) (xs : List A) (a : A) → IsIn a (select_where p xs) → IsIn a xs × (p a ≡ true)
  select_where-mem p [] a i = elim i [ ]
  select_where-mem p (x ∷ xs) a i = elim (Bool-cases (p x)) [
    | inl hit ↦
        let i' : IsIn a (x ∷ select_where p xs) = rw hit at i in
        elim i' [
          | inl e ↦ (inl e, subst (λ y. p y ≡ true) (sym e) hit)
          | inr j ↦ let (k, h) = select_where-mem p xs a j in (inr k, h)
        ]
    | inr miss ↦ let (k, h) = select_where-mem p xs a (rw miss at i) in (inr k, h)
  ]

  pub mem-select_where :
      (p : A → Bool) (xs : List A) (a : A) → IsIn a xs → p a ≡ true → IsIn a (select_where p xs)
  mem-select_where p [] a i h = elim i [ ]
  mem-select_where p (x ∷ xs) a i h = elim (Bool-cases (p x)) [
    | inl hit ↦ rw hit (elim i [ inl e ↦ inl e | inr j ↦ inr (mem-select_where p xs a j h) ])
    | inr miss ↦ rw miss (elim i [
      | inl e ↦ absurd (let e' = subst (λ y. p y ≡ true) e h in cc)
      | inr j ↦ mem-select_where p xs a j h
    ])
  ]
