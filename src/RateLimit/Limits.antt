-- ===== src/RateLimit/Limits.antt =====
-- backend/app/core/middleware/__init__.py: how many requests the fallback lets through.
use cohort_switch.Prelude.{
  ℕ, zero, suc, ◌+◌, ◌-◌, ◌≤◌, ◌≡◌, refl, sym, ◌∙◌, ap, subst, String, some, Bool, true, false, [],
  ◌∷◌, inl, inr, arith, ◌==◌, ltb, leb, str_eq, eq_refl, lookup, length, if◌then◌else◌, Bool-cases,
  Option-cases,
}
use cohort_switch.Errors.{Result, ok, err, key_error}
use cohort_switch.Flags.Store.Lists.{some-injective}
use cohort_switch.RateLimit.{
  Usage, usage, Buckets, Limiter, put, recent, prune, admit, admit_by, local_allowed,
}

lookup-put : (key : String) (u : Usage) (d : Buckets) → lookup key (put key u d) ≡ some u
unfolding put
lookup-put key u [] = rw (eq_refl key) refl
lookup-put key u ((k, v) ∷ d) = elim (Bool-cases (str_eq k key)) [
  | inl same ↦ rw (same, same) refl
  | inr other ↦ rw (other, other) (lookup-put key u d)
]

lookup-recent :
    (key : String) (window c : ℕ) (d : Buckets)
    → lookup key d ≡ some (usage window c)
    → lookup key (recent window d) ≡ some (usage window c)
unfolding recent
lookup-recent key window c [] h = absurd (cc)
lookup-recent key window c ((k, u) ∷ d) h = elim (Bool-cases (str_eq k key)) [
  | inl same ↦
      let here : some u ≡ some (usage window c) = rw same at h in
      let e : u.window ≡ window = ap (λ (v : Usage). v.window) (some-injective here) in
      let kept : leb window (u.window + 1) ≡ true = ground arith in rw (kept, same) here
  | inr other ↦ elim (Bool-cases (leb window (u.window + 1))) [
    | inl kept ↦ rw (kept, other) (lookup-recent key window c d (rw other at h))
    | inr dropped ↦ rw dropped (lookup-recent key window c d (rw other at h))
  ]
]

lookup-prune :
    (key : String) (window c : ℕ) (l : Limiter)
    → lookup key l.buckets ≡ some (usage window c)
    → lookup key (prune window l).buckets ≡ some (usage window c)
unfolding prune
lookup-prune key window c l h = elim (Bool-cases (ltb 20000 (length l.buckets))) [
  | inl full ↦ rw full (lookup-recent key window c l.buckets h)
  | inr fits ↦ rw fits h
]

abbrev pub count_true : Result Bool → ℕ
count_true (ok true) = 1
count_true (ok false) = 0
count_true (err e) = 0

module _ (key : String) (limit window : ℕ) where
  -- How many of `n` requests in a row, of one key in one window, are let through.
  unfoldable pub let_through : ℕ → Limiter → ℕ
  let_through zero l = 0
  let_through (suc n) l =
      let outcome = local_allowed key limit window l in
      count_true outcome.0 + let_through n outcome.1

  full_call :
      (c : ℕ) (l : Limiter)
      → lookup key l.buckets ≡ some (usage window c)
      → leb limit c ≡ true
      → local_allowed key limit window l ≡ (ok false, l)
  unfolding local_allowed admit_by admit
  full_call c l h full =
      let same : (window == window) ≡ true = ground arith in
      ap (λ o. admit_by key limit window o l) h ∙ rw (same, full) refl

  free_call :
      (c : ℕ) (l : Limiter)
      → lookup key l.buckets ≡ some (usage window c)
      → leb limit c ≡ false
      → (l' : Limiter) × (local_allowed key limit window l ≡ (ok true, l'))
        × (lookup key l'.buckets ≡ some (usage window (c + 1)))
  unfolding local_allowed admit_by admit
  free_call c l h free =
      let same : (window == window) ≡ true = ground arith in
      let counted = record l { buckets = put key (usage window (c + 1)) l.buckets } in
      (
        prune window counted,
        ap (λ o. admit_by key limit window o l) h ∙ rw (same, free) refl,
        lookup-prune key window (c + 1) counted (lookup-put key (usage window (c + 1)) l.buckets),
      )

  -- what a call and the `n` calls behind it let through
  abbrev through : ℕ → Result Bool × Limiter → ℕ
  through n outcome = count_true outcome.0 + let_through n outcome.1

  let_through_counted :
      (n c : ℕ) (l : Limiter)
      → lookup key l.buckets ≡ some (usage window c)
      → let_through n l ≤ limit - c
  unfolding let_through
  let_through_counted zero c l h = omega arith
  let_through_counted (suc n) c l h = elim (Bool-cases (leb limit c)) [
    | inl full ↦
        subst (λ o. through n o ≤ limit - c) (sym (full_call c l h full))
          (omega (arith, let_through_counted n c l h))
    | inr free ↦
        let (l', called, counted) = free_call c l h free in
        let rest = let_through_counted n (c + 1) l' counted in
        let room : c + 1 ≤ limit = ground arith in
        subst (λ o. through n o ≤ limit - c) (sym called) (omega arith)
  ]

  -- A call whose key is not counted in this window.
  first_call :
      (u : Usage) (l : Limiter)
      → (u.window == window) ≡ false
      → (l' : Limiter) × (admit key limit window u l ≡ (ok true, l'))
        × (lookup key l'.buckets ≡ some (usage window 1))
  unfolding admit
  first_call u l other = (
    record l { buckets = put key (usage window 1) l.buckets },
    rw other refl,
    lookup-put key (usage window 1) l.buckets,
  )

  through-next :
      (n : ℕ) (l : Limiter)
      → let_through (suc n) l ≡ through n (admit_by key limit window (lookup key l.buckets) l)
  unfolding let_through local_allowed
  through-next n l = refl

  -- In window 0, which is the first minute of 1970, a key that was not seen before counts from 0.
  let_through_from :
      (n : ℕ) (u : Usage) (l : Limiter)
      → lookup key l.buckets ≡ some u
      → through n (admit key limit window u l) ≤ 1 + (limit - 1)
  unfolding admit_by
  let_through_from n u l h = elim (Bool-cases (u.window == window)) [
    | inl same ↦
        let e : u.window ≡ window = ground arith in
        let here : lookup key l.buckets ≡ some (usage window u.count) =
          h ∙ ap (λ w. some (usage w u.count)) e in
        let all = let_through_counted (suc n) u.count l here in
        let call = through-next n l ∙ ap (λ o. through n (admit_by key limit window o l)) h in
        let bound : through n (admit key limit window u l) ≤ limit - u.count =
          subst (λ m. m ≤ limit - u.count) call all in
        omega (arith, bound)
    | inr other ↦
        let (l', called, counted) = first_call u l other in
        let rest = let_through_counted n 1 l' counted in
        subst (λ o. through n o ≤ 1 + (limit - 1)) (sym called) (omega arith)
  ]

  -- However the limiter stands, of `n` requests in a row of one key in one window at most `limit` are
  -- let through, or one where the limit is 0.
  pub let_through_le : (n : ℕ) (l : Limiter) → let_through n l ≤ 1 + (limit - 1)
  unfolding admit_by let_through
  let_through_le zero l = omega arith
  let_through_le (suc n) l = elim (Option-cases (lookup key l.buckets)) [
    | inr (u, h) ↦
        subst (λ m. m ≤ 1 + (limit - 1))
          (sym (through-next n l ∙ ap (λ o. through n (admit_by key limit window o l)) h))
          (let_through_from n u l h)
    | inl missing ↦ elim (Bool-cases l.has_default) [
      | inl inserts ↦
          let l₀ = record l { buckets = put key (usage 0 0) l.buckets } in
          subst (λ m. m ≤ 1 + (limit - 1))
            (sym (
              through-next n l
              ∙ ap (λ o. through n (admit_by key limit window o l)) missing
              ∙ rw inserts refl))
            (let_through_from n (usage 0 0) l₀ (lookup-put key (usage 0 0) l.buckets))
      | inr raises ↦
          let rest = let_through_le n l in
          subst (λ m. m ≤ 1 + (limit - 1))
            (sym (
              through-next n l
              ∙ ap (λ o. through n (admit_by key limit window o l)) missing
              ∙ ap
                  (λ b. through n (
                    if b
                    then admit key limit window (usage 0 0)
                        (record l { buckets = put key (usage 0 0) l.buckets })
                    else (err key_error, l)))
                  raises))
            (omega arith)
    ]
  ]
