-- ===== src/Schemas.antt =====
-- backend/app/api/schemas.py: the payloads of the flag endpoints, as they stand after validation.
use cohort_switch.Prelude.{
  ℕ, ◌+◌, String, Option, Bool, not, ◌&&◌, List, ◌==◌, ltb, if◌then◌else◌, is_nonempty,
}
use cohort_switch.Errors.{Result, ok, err, value_error}
use cohort_switch.Evaluation.Value.{Value}
use cohort_switch.Evaluation.Models.{FlagType, is_set, one_if}

pub record VariationInput : Type 0 where
  pub key : String
  pub value : Value

pub record ConditionInput : Type 0 where
  pub attribute : String
  pub operator : String
  pub value : Value

pub record RolloutInput : Type 0 where
  pub variation : String
  pub percentage_basis_points : ℕ

pub record ProgressiveStageInput : Type 0 where
  pub percentage_basis_points : ℕ
  pub variation : String
  pub fallback_variation : String
  pub activate_at : ℕ

pub record RuleInput : Type 0 where
  pub name : String
  pub priority : ℕ
  pub conditions : List ConditionInput
  pub variation : Option String
  pub rollout : List RolloutInput
  pub progressive_stages : List ProgressiveStageInput

pub record FlagCreate : Type 0 where
  pub environment_id : ℕ
  pub key : String
  pub name : String
  pub description : String
  pub flag_type : FlagType
  pub enabled : Bool
  pub default_variation : String
  pub variations : List VariationInput
  pub rules : List RuleInput
  pub rollout : List RolloutInput
  pub progressive_stages : List ProgressiveStageInput

pub record FlagUpdate : Type 0 where
  pub environment_id : ℕ
  pub expected_version : ℕ
  pub name : Option String
  pub description : Option String
  pub enabled : Bool
  pub default_variation : String
  pub variations : List VariationInput
  pub rules : List RuleInput
  pub rollout : List RolloutInput
  pub progressive_stages : List ProgressiveStageInput

pub record FlagResponse : Type 0 where
  pub id : ℕ
  pub project_id : ℕ
  pub environment_id : ℕ
  pub key : String
  pub name : String
  pub description : String
  pub flag_type : FlagType
  pub enabled : Bool
  pub default_variation : String
  pub current_version : ℕ
  pub archived_at : Option ℕ
  pub variations : List VariationInput
  pub rules : List RuleInput
  pub rollout : List RolloutInput
  pub progressive_stages : List ProgressiveStageInput

-- `Field(gt=0, le=10_000)` on the percentage of a rollout
unfoldable pub new_rollout_input : String → ℕ → Result RolloutInput
new_rollout_input variation percentage =
    if ltb 0 percentage && not (ltb 10000 percentage)
    then ok (record { variation = variation; percentage_basis_points = percentage })
    else err value_error

-- `RuleInput.require_single_action`, run when a rule payload is built
unfoldable pub require_single_action : RuleInput → Result RuleInput
require_single_action rule =
    if one_if (is_set rule.variation)
        + one_if (is_nonempty rule.rollout)
        + one_if (is_nonempty rule.progressive_stages)
      == 1
    then ok rule
    else err value_error
