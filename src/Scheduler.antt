-- ===== src/Scheduler.antt =====
-- backend/app/scheduler/__init__.py: what a scheduled change does to a configuration's payload.
pub mod Percentages
pub mod Due
mod Tests
use cohort_switch.Prelude.{
  ℕ, ◌-◌, String, Option, none, some, Bool, true, false, not, List, [], ◌∷◌, ◌++◌, ◌==◌, ltb, leb,
  str_eq, lookup, if◌then◌else◌,
}
use cohort_switch.Prelude.Int.{ℤ, pos, negsuc}
use cohort_switch.Errors.{Result, ok, err, value_error, key_error, raise_if, ◌>>=◌, ◌>>◌}
use cohort_switch.Schemas.{RolloutInput, FlagUpdate, new_rollout_input}
use cohort_switch.Evaluation.Value.{Value}
use cohort_switch.Flags.Tables.{or_raise}

-- `[RolloutInput(...)] if percentage else []`
unfoldable pub optional_input : String → ℕ → Result (List RolloutInput)
unfolding new_rollout_input
optional_input variation percentage =
    let input = new_rollout_input variation percentage in
    if percentage == 0 then ok [] else (do item ← input; ok (item ∷ []))

-- the allocations of a percentage, which lies between 0 and 10000
unfoldable pub percentage_rollout : String → String → ℕ → Result (List RolloutInput)
unfolding optional_input
percentage_rollout variation fallback percentage = do
  first ← optional_input variation percentage
  second ← optional_input fallback (10000 - percentage)
  ok (first ++ second)

-- `to_text` is `str(...)` and `to_int` is `int(...)` on a JSON value.
module _ (to_text : Value → String) (to_int : Value → Result ℤ)
    (payload : List (String × Value)) where
  abbrev field : String → Result Value
  field key = or_raise (lookup key payload) key_error

  abbrev nonnegative : ℤ → Result ℕ
  nonnegative (pos n) = ok n
  nonnegative (negsuc n) = err value_error

  -- The payload, and the actions for the audit and for the clients.
  unfoldable pub apply_payload : String → FlagUpdate → Result (FlagUpdate × String × String)
  unfolding percentage_rollout
  apply_payload change_type update =
      if str_eq change_type "enable"
      then ok (record update { enabled = true }, "flag.enabled", "flag.updated")
      else if str_eq change_type "disable"
      then ok (record update { enabled = false }, "flag.disabled", "flag.updated")
      else if str_eq change_type "variation"
      then (do
        variation ← field "variation"
        ok (
          record update {
            default_variation = to_text variation;
            rollout = [];
            progressive_stages = [];
          },
          "flag.updated",
          "flag.updated",
        ))
      else if str_eq change_type "rollout_percentage"
      then (do
        value ← field "percentage_basis_points"
        number ← to_int value
        percentage ← nonnegative number
        raise_if (ltb 10000 percentage) value_error
        variation ← field "variation"
        fallback ← field "fallback_variation"
        allocations ← percentage_rollout (to_text variation) (to_text fallback) percentage
        ok (
          record update { rollout = allocations; progressive_stages = [] },
          "rollout.changed",
          "rollout.changed",
        ))
      else err value_error
