-- ===== src/Scheduler/Tests.antt =====
-- The theorem on scheduled percentages at concrete inputs.
use cohort_switch.Prelude.{◌≡◌, refl, List, arith}
use cohort_switch.Errors.{ok}
use cohort_switch.Schemas.{RolloutInput}
use cohort_switch.Evaluation.Models.{RolloutAllocation}
use cohort_switch.Evaluation.Engine.{rollout_variation}
use cohort_switch.Evaluation.Engine.Rollout.{serves, count_from}
use cohort_switch.Flags.Allocations.{rollout_allocations}
use cohort_switch.Scheduler.{percentage_rollout}
use cohort_switch.Scheduler.Percentages.{percentage_rollout_shares}

percentage_rollout_shares_example :
    (inputs : List RolloutInput) × (r : List RolloutAllocation) × (percentage_rollout "on" "off"
        2500
      ≡ ok inputs)
    × (rollout_allocations inputs ≡ ok r)
    × (count_from 0 10000 (λ b. serves "on" (rollout_variation r b)) ≡ 2500)
percentage_rollout_shares_example = percentage_rollout_shares "on" "off" 2500 (omega arith) refl
