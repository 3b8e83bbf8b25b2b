-- ===== src/Flags/Allocations/Sums.antt =====
-- backend/app/services/flags.py: percentages, and the boundaries at their running sums.
use native.Mathlib.Nat.{add-zero}
use cohort_switch.Prelude.{
  ℕ, ◌+◌, ◌-◌, ◌≤◌, ◌<◌, ◌≡◌, refl, String, List, [], ◌∷◌, ltb, if◌then◌else◌, All, inl, inr, arith,
  Bool-cases, str_eq,
}
use cohort_switch.Errors.{ok, err, value_error}
use cohort_switch.Schemas.{RolloutInput, new_rollout_input}
use cohort_switch.Evaluation.Models.{RolloutAllocation, new_allocation}
use cohort_switch.Evaluation.Engine.Rollout.{IsChain, share, IsChain-le}
use cohort_switch.Flags.Allocations.{allocate, inputs_from}

-- The basis points that the payload asks for a variation.
unfoldable pub requested : String → List RolloutInput → ℕ
requested v [] = 0
requested v (item ∷ inputs) =
    (if str_eq item.variation v then item.percentage_basis_points else 0) + requested v inputs

-- The sum of the payload's basis points.
unfoldable pub total : List RolloutInput → ℕ
total [] = 0
total (item ∷ inputs) = item.percentage_basis_points + total inputs

abbrev pub HasPositiveShares : List RolloutInput → Type 0
HasPositiveShares = All (λ (i : RolloutInput). 0 < i.percentage_basis_points)

pub new_allocation-ok :
    (v : String) (n : ℕ) {a : RolloutAllocation}
    → new_allocation v n ≡ ok a
    → (a ≡ record { variation = v; end_bucket = n }) × (0 < n) × (n ≤ 10000)
unfolding new_allocation
new_allocation-ok v n h = ground arith

pub new_allocation_fits :
    (v : String) (n : ℕ)
    → 0 < n
    → n ≤ 10000
    → new_allocation v n ≡ ok (record { variation = v; end_bucket = n })
unfolding new_allocation
new_allocation_fits v n pos high = ground arith

pub new_rollout_input_fits :
    (v : String) (n : ℕ)
    → 0 < n
    → n ≤ 10000
    → new_rollout_input v n ≡ ok (record { variation = v; percentage_basis_points = n })
unfolding new_rollout_input
new_rollout_input_fits v n pos high = ground arith

-- The running sums of the percentages, from `lo`.
abbrev pub sums : ℕ → List RolloutInput → List RolloutAllocation
sums lo [] = []
sums lo (item ∷ inputs) =
    record { variation = item.variation; end_bucket = lo + item.percentage_basis_points }
    ∷ sums (lo + item.percentage_basis_points) inputs

pub allocate-cons :
    (lo : ℕ) (item : RolloutInput) (inputs : List RolloutInput) {r : List RolloutAllocation} {b : ℕ}
    → 0 < lo + item.percentage_basis_points
    → lo + item.percentage_basis_points ≤ 10000
    → allocate (lo + item.percentage_basis_points) inputs ≡ ok (r, b)
    → allocate lo (item ∷ inputs)
      ≡ ok (
        record { variation = item.variation; end_bucket = lo + item.percentage_basis_points } ∷ r,
        b,
      )
unfolding allocate
allocate-cons lo item inputs pos high e =
    rw (new_allocation_fits item.variation (lo + item.percentage_basis_points) pos high, e)

-- Where the percentages are positive and do not pass 10000, the loop returns their sums.
pub allocate-sums :
    (lo : ℕ) (inputs : List RolloutInput)
    → HasPositiveShares inputs
    → lo + total inputs ≤ 10000
    → allocate lo inputs ≡ ok (sums lo inputs, lo + total inputs)
unfolding total
allocate-sums lo [] pos high = unfold allocate in rw (add-zero lo)
allocate-sums lo (item ∷ inputs) pos high =
    let e : lo + item.percentage_basis_points + total inputs
        ≡ lo + (item.percentage_basis_points + total inputs) =
      omega arith in
    rw (← e) (
      allocate-cons lo item inputs (omega arith) (omega arith)
        (allocate-sums (lo + item.percentage_basis_points) inputs pos.1 (omega arith)))

-- Where they pass 10000, a boundary does, and its allocation is refused.
pub allocate_overshoot :
    (lo : ℕ) (inputs : List RolloutInput)
    → HasPositiveShares inputs
    → lo ≤ 10000
    → 10000 < lo + total inputs
    → allocate lo inputs ≡ err value_error
unfolding total allocate
allocate_overshoot lo [] pos low high = absurd (omega arith)
allocate_overshoot lo (item ∷ inputs) pos low high =
    elim (Bool-cases (ltb 10000 (lo + item.percentage_basis_points))) [
      | inl over ↦ unfold new_allocation in ground arith
      | inr under ↦ rw (
        new_allocation_fits item.variation (lo + item.percentage_basis_points) (omega arith)
            (ground arith),
        allocate_overshoot (lo + item.percentage_basis_points) inputs pos.1 (ground arith)
            (omega arith),
      )
    ]

pub IsChain-sums :
    (lo : ℕ) (inputs : List RolloutInput)
    → HasPositiveShares inputs
    → lo + total inputs ≡ 10000
    → IsChain lo (sums lo inputs)
unfolding total
IsChain-sums lo [] pos e = omega arith
IsChain-sums lo (item ∷ inputs) pos e =
    (omega arith, IsChain-sums (lo + item.percentage_basis_points) inputs pos.1 (omega arith))

pub share-sums :
    (v : String) (lo : ℕ) (inputs : List RolloutInput)
    → share v lo (sums lo inputs) ≡ requested v inputs
unfolding share requested
share-sums v lo [] = refl
share-sums v lo (item ∷ inputs) =
    ground (arith, share-sums v (lo + item.percentage_basis_points) inputs)

pub inputs_from-sums :
    (lo : ℕ) (inputs : List RolloutInput)
    → HasPositiveShares inputs
    → lo + total inputs ≤ 10000
    → inputs_from lo (sums lo inputs) ≡ ok inputs
unfolding total inputs_from
inputs_from-sums lo [] pos high = refl
inputs_from-sums lo (item ∷ inputs) pos high =
    let e : lo + item.percentage_basis_points - lo ≡ item.percentage_basis_points = omega arith in
    rw (
      e,
      new_rollout_input_fits item.variation item.percentage_basis_points pos.0 (omega arith),
      inputs_from-sums (lo + item.percentage_basis_points) inputs pos.1 (omega arith),
    )

-- The percentages that boundaries from `lo` stand for.
abbrev pub widths : ℕ → List RolloutAllocation → List RolloutInput
widths lo [] = []
widths lo (a ∷ rollout) =
    record { variation = a.variation; percentage_basis_points = a.end_bucket - lo }
    ∷ widths a.end_bucket rollout

pub inputs_from-widths :
    (lo : ℕ) (rollout : List RolloutAllocation)
    → IsChain lo rollout
    → inputs_from lo rollout ≡ ok (widths lo rollout)
unfolding inputs_from
inputs_from-widths lo [] h = refl
inputs_from-widths lo (a ∷ rollout) h = rw (
  new_rollout_input_fits a.variation (a.end_bucket - lo) (omega arith)
      (omega (arith, IsChain-le a.end_bucket rollout h.1)),
  inputs_from-widths a.end_bucket rollout h.1,
)

pub sums-widths :
    (lo : ℕ) (rollout : List RolloutAllocation)
    → IsChain lo rollout
    → sums lo (widths lo rollout) ≡ rollout
sums-widths lo [] h = refl
sums-widths lo (a ∷ rollout) h =
    let e : lo + (a.end_bucket - lo) ≡ a.end_bucket = omega arith in
    rw (e, sums-widths a.end_bucket rollout h.1)

pub HasPositiveShares-widths :
    (lo : ℕ) (rollout : List RolloutAllocation)
    → IsChain lo rollout
    → HasPositiveShares (widths lo rollout)
HasPositiveShares-widths lo [] h = tt
HasPositiveShares-widths lo (a ∷ rollout) h =
    (omega arith, HasPositiveShares-widths a.end_bucket rollout h.1)

pub total-widths :
    (lo : ℕ) (rollout : List RolloutAllocation)
    → IsChain lo rollout
    → lo + total (widths lo rollout) ≡ 10000
unfolding total
total-widths lo [] h = omega arith
total-widths lo (a ∷ rollout) h = omega (arith, total-widths a.end_bucket rollout h.1)
