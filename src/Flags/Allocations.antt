-- ===== src/Flags/Allocations.antt =====
-- `_rollout_allocations` and `_rollout_inputs`: percentages to cumulative boundaries, and back.
pub mod Sums
pub mod RoundTrip
use cohort_switch.Prelude.{
  ℕ, ◌+◌, ◌-◌, String, Bool, true, false, not, ◌&&◌, List, [], ◌∷◌, ◌==◌, ltb, if◌then◌else◌,
  is_nonempty,
}
use cohort_switch.Errors.{Result, ok, err, value_error, api, raise_if, ◌>>=◌, ◌>>◌}
use cohort_switch.Schemas.{RolloutInput, new_rollout_input}
use cohort_switch.Evaluation.Models.{RolloutAllocation, new_allocation}

-- The loop: the allocations, and the boundary that it ends at.
unfoldable pub allocate : ℕ → List RolloutInput → Result (List RolloutAllocation × ℕ)
unfolding new_allocation
allocate boundary [] = ok ([], boundary)
allocate boundary (item ∷ inputs) = do
  allocation ← new_allocation item.variation (boundary + item.percentage_basis_points)
  rest ← allocate (boundary + item.percentage_basis_points) inputs
  ok (allocation ∷ rest.0, rest.1)

unfoldable pub rollout_allocations : List RolloutInput → Result (List RolloutAllocation)
unfolding allocate
rollout_allocations inputs = do
  result ← allocate 0 inputs
  raise_if (is_nonempty result.0 && not (result.1 == 10000))
      (api 422 "invalid_rollout" "Rollout percentages must add up to exactly 10000 basis points.")
  ok result.0

-- The loop of `_rollout_inputs`; a boundary that does not climb gives no percentage above zero.
unfoldable pub inputs_from : ℕ → List RolloutAllocation → Result (List RolloutInput)
unfolding new_rollout_input
inputs_from previous [] = ok []
inputs_from previous (item ∷ rollout) = do
  input ← new_rollout_input item.variation (item.end_bucket - previous)
  rest ← inputs_from item.end_bucket rollout
  ok (input ∷ rest)

unfoldable pub rollout_inputs : List RolloutAllocation → Result (List RolloutInput)
unfolding inputs_from
rollout_inputs = inputs_from 0
