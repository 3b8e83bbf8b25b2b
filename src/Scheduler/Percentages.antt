-- ===== src/Scheduler/Percentages.antt =====
-- backend/app/scheduler/__init__.py: the allocations of a scheduled percentage.
use cohort_switch.Prelude.{
  ℕ, ◌-◌, ◌<◌, ◌≤◌, ◌≡◌, refl, ◌∙◌, String, false, List, [], ◌∷◌, ◌++◌, ◌==◌, inl, inr, arith,
  Bool-cases, str_eq, eq_refl, if◌then◌else◌,
}
use cohort_switch.Errors.{ok}
use cohort_switch.Schemas.{RolloutInput}
use cohort_switch.Evaluation.Models.{RolloutAllocation}
use cohort_switch.Evaluation.Engine.{rollout_variation}
use cohort_switch.Evaluation.Engine.Rollout.{serves, count_from}
use cohort_switch.Flags.Allocations.{rollout_allocations}
use cohort_switch.Flags.Allocations.Sums.{
  requested, total, HasPositiveShares, new_rollout_input_fits,
}
use cohort_switch.Flags.Allocations.RoundTrip.{rollout_allocations_shares}
use cohort_switch.Scheduler.{optional_input, percentage_rollout}

abbrev item : String → ℕ → RolloutInput
item v n = record { variation = v; percentage_basis_points = n }

-- The payload that asks for `p` of the 10000 basis points.
abbrev inputs_for : String → String → ℕ → List RolloutInput
inputs_for v w p =
    (if p == 0 then [] else item v p ∷ [])
    ++ (if (10000 - p) == 0 then [] else item w (10000 - p) ∷ [])

optional_input_fits :
    (v : String) (n : ℕ)
    → n ≤ 10000
    → optional_input v n ≡ ok (if n == 0 then [] else item v n ∷ [])
unfolding optional_input
optional_input_fits v n high = elim (Bool-cases (n == 0)) [
  | inl zero_case ↦ rw zero_case refl
  | inr positive ↦ rw (positive, new_rollout_input_fits v n (ground arith) high) refl
]

percentage_rollout_inputs :
    (v w : String) (p : ℕ) → p ≤ 10000 → percentage_rollout v w p ≡ ok (inputs_for v w p)
unfolding percentage_rollout
percentage_rollout_inputs v w p high =
    rw (optional_input_fits v p high, optional_input_fits w (10000 - p) (omega arith)) refl

record IsSplit (v w : String) (p : ℕ) (inputs : List RolloutInput) : Type 0 where
  positive : HasPositiveShares inputs
  sums : total inputs ≡ 10000
  asked : requested v inputs ≡ p

inputs_for-IsSplit :
    (v w : String) (p : ℕ) → p ≤ 10000 → str_eq w v ≡ false → IsSplit v w p (inputs_for v w p)
unfolding total requested
inputs_for-IsSplit v w p high other = elim (Bool-cases (p == 0)) [
  | inl none_asked ↦
      let rest : ((10000 - p) == 0) ≡ false = ground arith in
      let e : p ≡ 0 = ground arith in
      rw (none_asked, rest)
        (record {
          positive = (omega arith, tt);
          sums = omega arith;
          asked = rw other (omega arith);
        })
  | inr some_asked ↦ elim (Bool-cases ((10000 - p) == 0)) [
    | inl all_asked ↦
        let e : p ≡ 10000 = ground arith in
        rw (some_asked, all_asked)
          (record {
            positive = (omega arith, tt);
            sums = omega arith;
            asked = rw (eq_refl v) (omega arith);
          })
    | inr split ↦
        let low : 0 < p = ground arith in
        let room : 0 < 10000 - p = ground arith in
        rw (some_asked, split)
          (record {
            positive = (low, (room, tt));
            sums = omega arith;
            asked = rw (eq_refl v, other) (omega arith);
          })
  ]
]

-- A percentage of at most 10000 basis points, of two variations that differ, compiles to boundaries
-- under which the first is served to as many of the 10000 buckets.
pub percentage_rollout_shares :
    (v w : String) (p : ℕ)
    → p ≤ 10000
    → str_eq w v ≡ false
    → (inputs : List RolloutInput) × (r : List RolloutAllocation) × (percentage_rollout v w p
        ≡ ok inputs)
      × (rollout_allocations inputs ≡ ok r)
      × (count_from 0 10000 (λ b. serves v (rollout_variation r b)) ≡ p)
percentage_rollout_shares v w p high other =
    let split = inputs_for-IsSplit v w p high other in
    let (r, built, counts) =
      rollout_allocations_shares (inputs_for v w p) split.positive split.sums in
    (inputs_for v w p, r, percentage_rollout_inputs v w p high, built, counts v ∙ split.asked)
