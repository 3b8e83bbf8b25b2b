-- ===== src/Evaluation/Engine/Rollout.antt =====
-- backend/app/evaluation/engine.py: `_rollout_variation`, over all buckets.
use Prim.Native.Nat.{zero, suc}
use native.Mathlib.Nat.{zero-add, add-zero}
use cohort_switch.Prelude.{
  ℕ, ◌+◌, ◌-◌, ◌<◌, ◌≤◌, ◌≡◌, refl, sym, subst, ◌≢◌, String, Bool, true, false, ◌||◌, List, [], ◌∷◌,
  inl, inr, arith, ltb, if◌then◌else◌, Bool-cases, str_eq, eq_refl, elem, All,
}
use cohort_switch.Errors.{Result, ok, err}
use cohort_switch.Evaluation.Models.{
  RolloutAllocation, validate_rollout, sorted_set, eq_list, boundaries, last_of,
  allocation_references, insert_unique,
}
use cohort_switch.Evaluation.Engine.{rollout_variation}

-- The boundaries climb from `lo` and end at 10000.
abbrev pub IsChain : ℕ → List RolloutAllocation → Type 0
IsChain lo [] = lo ≡ 10000
IsChain lo (a ∷ rollout) = (lo < a.end_bucket) × IsChain a.end_bucket rollout

or_true : (b : Bool) → (b || true) ≡ true
or_true b = ground arith

abbrev IsIncreasing : List ℕ → Type 0
IsIncreasing [] = Unit
IsIncreasing (x ∷ xs) = All (λ y. x < y) xs × IsIncreasing xs

All-lt_trans : (a b : ℕ) (xs : List ℕ) → a < b → All (λ y. b < y) xs → All (λ y. a < y) xs
All-lt_trans a b [] h hs = tt
All-lt_trans a b (x ∷ xs) h hs = (omega arith, All-lt_trans a b xs h hs.1)

All-insert_unique :
    (a x : ℕ) (xs : List ℕ) → a < x → All (λ y. a < y) xs → All (λ y. a < y) (insert_unique x xs)
All-insert_unique a x [] h hs = (h, tt)
All-insert_unique a x (y ∷ ys) h hs = ground (arith, All-insert_unique a x ys h)

insert_unique-IsIncreasing :
    (x : ℕ) (xs : List ℕ) → IsIncreasing xs → IsIncreasing (insert_unique x xs)
insert_unique-IsIncreasing x [] h = (tt, tt)
insert_unique-IsIncreasing x (y ∷ ys) h =
    ground (arith, All-lt_trans x y ys, All-insert_unique y x ys, insert_unique-IsIncreasing x ys)

sorted_set-IsIncreasing : (xs : List ℕ) → IsIncreasing (sorted_set xs)
unfolding sorted_set
sorted_set-IsIncreasing [] = tt
sorted_set-IsIncreasing (x ∷ xs) =
    insert_unique-IsIncreasing x (sorted_set xs) (sorted_set-IsIncreasing xs)

eq_list_sound : (xs ys : List ℕ) → eq_list xs ys ≡ true → xs ≡ ys
unfolding eq_list
eq_list_sound [] [] h = refl
eq_list_sound [] (y ∷ ys) h = absurd (cc)
eq_list_sound (x ∷ xs) [] h = absurd (cc)
eq_list_sound (x ∷ xs) (y ∷ ys) h = ground (arith, eq_list_sound xs ys)

IsChain-of_increasing :
    (a : RolloutAllocation) (rollout : List RolloutAllocation)
    → IsIncreasing (boundaries (a ∷ rollout))
    → last_of a.end_bucket (boundaries rollout) ≡ 10000
    → IsChain a.end_bucket rollout
IsChain-of_increasing a [] h e = e
IsChain-of_increasing a (b ∷ rollout) h e = (h.0.0, IsChain-of_increasing b rollout h.1 e)

validate_rollout-tests :
    (a : RolloutAllocation) (rollout : List RolloutAllocation)
    → validate_rollout (a ∷ rollout) ≡ ok tt
    → let ends = boundaries (a ∷ rollout) in
      (eq_list ends (sorted_set ends) ≡ true) × (last_of a.end_bucket (boundaries rollout) ≡ 10000)
unfolding validate_rollout
validate_rollout-tests a rollout h = ground arith

-- A rollout that the validator accepts climbs to 10000.
pub validate_rollout-IsChain :
    (rollout : List RolloutAllocation)
    → rollout ≢ []
    → All (λ a. 0 < a.end_bucket) rollout
    → validate_rollout rollout ≡ ok tt
    → IsChain 0 rollout
validate_rollout-IsChain [] ne pos h = absurd (ne refl)
validate_rollout-IsChain (a ∷ rollout) ne pos h =
    let tests = validate_rollout-tests a rollout h in
    let ends = boundaries (a ∷ rollout) in
    let sorted = eq_list_sound ends (sorted_set ends) tests.0 in
    (
      pos.0,
      IsChain-of_increasing a rollout
          (subst (λ xs. IsIncreasing xs) (sym sorted) (sorted_set-IsIncreasing ends)) tests.1,
    )

-- Every bucket below 10000 is served, by a variation that the rollout names.
pub rollout_variation-total :
    (lo : ℕ) (rollout : List RolloutAllocation) (bucket : ℕ)
    → IsChain lo rollout
    → lo ≤ bucket
    → bucket < 10000
    → (v : String) × (rollout_variation rollout bucket ≡ ok v)
      × (elem v (allocation_references rollout) ≡ true)
unfolding rollout_variation
rollout_variation-total lo [] bucket h low high = absurd (omega arith)
rollout_variation-total lo (a ∷ rollout) bucket h low high =
    elim (Bool-cases (ltb bucket a.end_bucket)) [
      | inl here ↦ (a.variation, rw here, rw (eq_refl a.variation))
      | inr past ↦
          let (v, served, named) =
            rollout_variation-total a.end_bucket rollout bucket h.1 (ground arith) high in
          (v, rw past served, rw named (or_true (str_eq a.variation v)))
    ]

-- Whether the outcome is to serve `v`.
abbrev pub serves : String → Result String → Bool
serves v (ok w) = str_eq w v
serves v (err e) = false

-- How many of the `n` numbers from `lo` pass the test.
unfoldable pub count_from : ℕ → ℕ → (ℕ → Bool) → ℕ
count_from lo zero p = 0
count_from lo (suc n) p = (if p lo then 1 else 0) + count_from (suc lo) n p

-- The width of the intervals that the boundaries give to `v`.
unfoldable pub share : String → ℕ → List RolloutAllocation → ℕ
share v lo [] = 0
share v lo (a ∷ rollout) =
    (if str_eq a.variation v then a.end_bucket - lo else 0) + share v a.end_bucket rollout

count_from-add :
    (lo n m : ℕ) (p : ℕ → Bool)
    → count_from lo (n + m) p ≡ count_from lo n p + count_from (lo + n) m p
unfolding count_from
count_from-add lo zero m p = rw (zero-add m, add-zero lo) (omega arith)
count_from-add lo (suc n) m p =
    let step : suc n + m ≡ suc (n + m) = omega arith in
    let start : lo + suc n ≡ suc lo + n = omega arith in
    rw (step, start) (omega (arith, count_from-add (suc lo) n m p))

count_from-congr :
    (lo n : ℕ) (p q : ℕ → Bool)
    → ((b : ℕ) → lo ≤ b → b < lo + n → p b ≡ q b)
    → count_from lo n p ≡ count_from lo n q
unfolding count_from
count_from-congr lo zero p q h = refl
count_from-congr lo (suc n) p q h =
    ground
      (arith, h lo, count_from-congr (suc lo) n p q (λ b low high. h b (omega arith) (omega arith)))

count_from-const : (lo n : ℕ) (b : Bool) → count_from lo n (λ _. b) ≡ (if b then n else 0)
unfolding count_from
count_from-const lo zero b = ground arith
count_from-const lo (suc n) b = ground (arith, count_from-const (suc lo) n b)

serves_first :
    (v : String) (a : RolloutAllocation) (rollout : List RolloutAllocation) (b : ℕ)
    → b < a.end_bucket
    → serves v (rollout_variation (a ∷ rollout) b) ≡ str_eq a.variation v
unfolding rollout_variation
serves_first v a rollout b h = ground arith

serves_later :
    (v : String) (a : RolloutAllocation) (rollout : List RolloutAllocation) (b : ℕ)
    → a.end_bucket ≤ b
    → serves v (rollout_variation (a ∷ rollout) b) ≡ serves v (rollout_variation rollout b)
unfolding rollout_variation
serves_later v a rollout b h = ground arith

pub IsChain-le : (lo : ℕ) (rollout : List RolloutAllocation) → IsChain lo rollout → lo ≤ 10000
IsChain-le lo [] h = omega arith
IsChain-le lo (a ∷ rollout) h = omega (arith, IsChain-le a.end_bucket rollout h.1)

-- Of the buckets from `lo` up, as many serve `v` as its intervals are wide.
pub count-eq-share :
    (v : String) (lo : ℕ) (rollout : List RolloutAllocation)
    → IsChain lo rollout
    → count_from lo (10000 - lo) (λ b. serves v (rollout_variation rollout b)) ≡ share v lo rollout
unfolding share
count-eq-share v lo [] h =
    let none_left : 10000 - lo ≡ 0 = omega arith in rw none_left (unfold count_from in refl)
count-eq-share v lo (a ∷ rollout) h =
    let served = λ (b : ℕ). serves v (rollout_variation (a ∷ rollout) b) in
    let high : a.end_bucket ≤ 10000 = IsChain-le a.end_bucket rollout h.1 in
    let width : 10000 - lo ≡ (a.end_bucket - lo) + (10000 - a.end_bucket) = omega arith in
    let start : lo + (a.end_bucket - lo) ≡ a.end_bucket = omega arith in
    rw (width, count_from-add lo (a.end_bucket - lo) (10000 - a.end_bucket) served, start)
      (omega (
        arith,
        count_from-congr lo (a.end_bucket - lo) served (λ _. str_eq a.variation v)
            (λ b low below. serves_first v a rollout b (omega arith)),
        count_from-const lo (a.end_bucket - lo) (str_eq a.variation v),
        count_from-congr a.end_bucket (10000 - a.end_bucket) served
            (λ b. serves v (rollout_variation rollout b))
            (λ b low below. serves_later v a rollout b low),
        count-eq-share v a.end_bucket rollout h.1,
      ))
