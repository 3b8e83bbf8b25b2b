-- ===== src/Flags/Allocations/RoundTrip.antt =====
-- backend/app/services/flags.py: from percentages to boundaries and back.
use cohort_switch.Prelude.{
  ℕ, ◌+◌, ◌≤◌, ◌<◌, ◌≡◌, refl, ◌≢◌, ap, ◌∙◌, String, not, ◌&&◌, List, [], ◌∷◌, ◌==◌, if◌then◌else◌,
  is_nonempty, arith,
}
use cohort_switch.Errors.{Error, ok, err, value_error, api, ◌>>=◌}
use cohort_switch.Schemas.{RolloutInput}
use cohort_switch.Evaluation.Models.{RolloutAllocation}
use cohort_switch.Evaluation.Engine.{rollout_variation}
use cohort_switch.Evaluation.Engine.Rollout.{IsChain, serves, count_from, count-eq-share}
use cohort_switch.Flags.Allocations.Sums.{
  requested, total, HasPositiveShares, sums, allocate-sums, allocate_overshoot, IsChain-sums,
  share-sums, inputs_from-sums, widths, inputs_from-widths, sums-widths, HasPositiveShares-widths,
  total-widths,
}
use cohort_switch.Flags.Allocations.{allocate, rollout_allocations, rollout_inputs}

-- The refusal of percentages that do not add up.
abbrev pub invalid_rollout : Error
invalid_rollout =
    api 422 "invalid_rollout" "Rollout percentages must add up to exactly 10000 basis points."

rollout_allocations_test :
    (inputs : List RolloutInput) (r : List RolloutAllocation) (b : ℕ)
    → allocate 0 inputs ≡ ok (r, b)
    → rollout_allocations inputs
      ≡ (if is_nonempty r && not (b == 10000) then err invalid_rollout else ok r)
unfolding rollout_allocations
rollout_allocations_test inputs r b e = rw e (ground arith)

rollout_allocations-sums :
    (inputs : List RolloutInput)
    → HasPositiveShares inputs
    → total inputs ≡ 10000
    → rollout_allocations inputs ≡ ok (sums 0 inputs)
rollout_allocations-sums inputs pos sum =
    let e : 0 + total inputs ≡ 10000 = omega arith in
    rollout_allocations_test inputs (sums 0 inputs) (0 + total inputs)
      (allocate-sums 0 inputs pos (omega arith))
    ∙ rw e (ground arith)

-- Percentages that are positive and add up to 10000 compile to boundaries under which each
-- variation is served to as many of the 10000 buckets as basis points were asked for it.
pub rollout_allocations_shares :
    (inputs : List RolloutInput)
    → HasPositiveShares inputs
    → total inputs ≡ 10000
    → (r : List RolloutAllocation) × (rollout_allocations inputs ≡ ok r)
      × ((v : String)
          → count_from 0 10000 (λ b. serves v (rollout_variation r b)) ≡ requested v inputs)
rollout_allocations_shares inputs pos sum =
    let e : 0 + total inputs ≡ 10000 = omega arith in
    (
      sums 0 inputs,
      rollout_allocations-sums inputs pos sum,
      λ v. count-eq-share v 0 (sums 0 inputs) (IsChain-sums 0 inputs pos e) ∙ share-sums v 0 inputs,
    )

-- Boundaries that climb to 10000 come back unchanged from a trip through the payload's percentages.
pub rollout_allocations-rollout_inputs :
    (rollout : List RolloutAllocation)
    → IsChain 0 rollout
    → (inputs : List RolloutInput) × (rollout_inputs rollout ≡ ok inputs)
      × (rollout_allocations inputs ≡ ok rollout)
unfolding rollout_inputs
rollout_allocations-rollout_inputs rollout chain =
    let sum : total (widths 0 rollout) ≡ 10000 = omega (arith, total-widths 0 rollout chain) in
    (
      widths 0 rollout,
      inputs_from-widths 0 rollout chain,
      rollout_allocations-sums (widths 0 rollout) (HasPositiveShares-widths 0 rollout chain) sum
          ∙ ap ok (sums-widths 0 rollout chain),
    )

-- Percentages that are positive and add up to 10000 come back unchanged from their boundaries.
pub rollout_inputs-rollout_allocations :
    (inputs : List RolloutInput)
    → HasPositiveShares inputs
    → total inputs ≡ 10000
    → (rollout_allocations inputs >>= rollout_inputs) ≡ ok inputs
unfolding rollout_inputs
rollout_inputs-rollout_allocations inputs pos sum =
    let e : 0 + total inputs ≤ 10000 = omega arith in
    rw (rollout_allocations-sums inputs pos sum) (inputs_from-sums 0 inputs pos e)

-- A non-empty list of positive percentages is refused unless they add up to 10000: with the API's
-- error below it, and with a plain ValueError, from the allocation whose boundary passes 10000, above it.
pub rollout_allocations_refused :
    (inputs : List RolloutInput)
    → HasPositiveShares inputs
    → inputs ≢ []
    → (total inputs < 10000 → rollout_allocations inputs ≡ err invalid_rollout)
      × (10000 < total inputs → rollout_allocations inputs ≡ err value_error)
rollout_allocations_refused [] pos ne = absurd (ne refl)
rollout_allocations_refused (item ∷ inputs) pos ne =
    let all_inputs = item ∷ inputs in
    (
      (λ low.
          rollout_allocations_test all_inputs (sums 0 all_inputs) (0 + total all_inputs)
            (allocate-sums 0 all_inputs pos (omega arith))
          ∙ ground arith),
      λ high.
          unfold rollout_allocations in
          rw (allocate_overshoot 0 all_inputs pos (omega arith) (omega arith)),
    )
