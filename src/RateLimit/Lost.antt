-- ===== src/RateLimit/Lost.antt =====
-- backend/app/core/middleware/__init__.py: the keys of the fallback, before and after pruning.
use cohort_switch.Prelude.{
  ℕ, ◌+◌, ◌≡◌, refl, sym, ◌∙◌, ap, subst, String, none, some, true, false, List, [], ◌∷◌, inl, inr,
  ◌==◌, ltb, leb, str_eq, lookup, elem, keys, length, Bool-cases, Option-cases,
}
use cohort_switch.Errors.{err, key_error}
use cohort_switch.RateLimit.{
  Usage, usage, Buckets, Limiter, put, recent, prune, admit, admit_by, local_allowed,
}

elem-put :
    (k key : String) (u : Usage) (d : Buckets)
    → elem k (keys d) ≡ false
    → elem key (keys d) ≡ true
    → elem k (keys (put key u d)) ≡ false
unfolding put
elem-put k key u [] h e = absurd (cc)
elem-put k key u ((j, v) ∷ d) h e = elim (Bool-cases (str_eq j key)) [
  | inl same ↦ rw same h
  | inr other ↦ elim (Bool-cases (str_eq j k)) [
    | inl twice ↦ absurd (let h' = rw twice at h in cc)
    | inr apart ↦ rw (other, apart) (elem-put k key u d (rw apart at h) (rw other at e))
  ]
]

elem-recent :
    (k : String) (window : ℕ) (d : Buckets)
    → elem k (keys d) ≡ false
    → elem k (keys (recent window d)) ≡ false
unfolding recent
elem-recent k window [] h = refl
elem-recent k window ((j, u) ∷ d) h = elim (Bool-cases (str_eq j k)) [
  | inl same ↦ absurd (let h' = rw same at h in cc)
  | inr other ↦ elim (Bool-cases (leb window (u.window + 1))) [
    | inl kept ↦ rw (kept, other) (elem-recent k window d (rw other at h))
    | inr dropped ↦ rw dropped (elem-recent k window d (rw other at h))
  ]
]

elem_of_lookup :
    (key : String) (d : Buckets) {u : Usage} → lookup key d ≡ some u → elem key (keys d) ≡ true
elem_of_lookup key [] h = absurd (cc)
elem_of_lookup key ((j, v) ∷ d) h = elim (Bool-cases (str_eq j key)) [
  | inl same ↦ rw same refl
  | inr other ↦ rw other (elem_of_lookup key d (rw other at h))
]

lookup_of_not_elem : (key : String) (d : Buckets) → elem key (keys d) ≡ false → lookup key d ≡ none
lookup_of_not_elem key [] h = refl
lookup_of_not_elem key ((j, v) ∷ d) h = elim (Bool-cases (str_eq j key)) [
  | inl same ↦ absurd (let h' = rw same at h in cc)
  | inr other ↦ rw other (lookup_of_not_elem key d (rw other at h))
]

-- The dict is plain, and `k` is not in it.
abbrev Lacks : String → Limiter → Type 0
Lacks k l = (l.has_default ≡ false) × (elem k (keys l.buckets) ≡ false)

Lacks-prune : (k : String) (window : ℕ) (l : Limiter) → Lacks k l → Lacks k (prune window l)
unfolding prune
Lacks-prune k window l h = elim (Bool-cases (ltb 20000 (length l.buckets))) [
  | inl full ↦ rw full (refl, elem-recent k window l.buckets h.1)
  | inr fits ↦ rw fits h
]

-- One call of the fallback.
pub record Call : Type 0 where
  pub key : String
  pub limit : ℕ
  pub window : ℕ

Lacks-admit :
    (k : String) (c : Call) (u : Usage) (l : Limiter)
    → Lacks k l
    → elem c.key (keys l.buckets) ≡ true
    → Lacks k (admit c.key c.limit c.window u l).1
unfolding admit
Lacks-admit k c u l h known = elim (Bool-cases (u.window == c.window)) [
  | inr other ↦ rw other (h.0, elem-put k c.key (usage c.window 1) l.buckets h.1 known)
  | inl same ↦ elim (Bool-cases (leb c.limit u.count)) [
    | inl full ↦ rw (same, full) h
    | inr free ↦
        rw (same, free)
          (Lacks-prune k c.window _
            (h.0, elem-put k c.key (usage c.window (u.count + 1)) l.buckets h.1 known))
  ]
]

Lacks-local_allowed :
    (k : String) (c : Call) (l : Limiter)
    → Lacks k l
    → Lacks k (local_allowed c.key c.limit c.window l).1
unfolding local_allowed admit_by
Lacks-local_allowed k c l h = elim (Option-cases (lookup c.key l.buckets)) [
  | inl missing ↦
      subst (λ o. Lacks k (admit_by c.key c.limit c.window o l).1) (sym missing)
        (rw h.0 (refl, h.1))
  | inr (u, found) ↦
      subst (λ o. Lacks k (admit_by c.key c.limit c.window o l).1) (sym found)
        (Lacks-admit k c u l h (elem_of_lookup c.key l.buckets found))
]

-- The limiter after some calls.
pub run : List Call → Limiter → Limiter
run [] l = l
run (c ∷ calls) l = run calls (local_allowed c.key c.limit c.window l).1

-- A limiter whose dict is plain raises KeyError on a key that it lacks, whatever calls come between.
pub local_allowed-lost :
    (k : String) (limit window : ℕ) (calls : List Call) (l : Limiter)
    → l.has_default ≡ false
    → elem k (keys l.buckets) ≡ false
    → local_allowed k limit window (run calls l) ≡ (err key_error, run calls l)
unfolding run local_allowed admit_by
local_allowed-lost k limit window [] l plain lacks =
    ap (λ o. admit_by k limit window o l) (lookup_of_not_elem k l.buckets lacks) ∙ rw plain refl
local_allowed-lost k limit window (c ∷ calls) l plain lacks =
    let kept = Lacks-local_allowed k c l (plain, lacks) in
    local_allowed-lost k limit window calls (local_allowed c.key c.limit c.window l).1 kept.0 kept.1
