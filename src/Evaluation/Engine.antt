-- ===== src/Evaluation/Engine.antt =====
-- backend/app/evaluation/engine.py: `evaluate_flag`.
pub mod Rollout
pub mod Progressive
pub mod Served
pub mod Priority
pub mod Totality
pub mod Reordering
pub mod Reordered
use cohort_switch.Prelude.{
  ℕ, String, Option, none, some, Bool, true, false, not, List, [], ◌∷◌, ltb, leb, if◌then◌else◌,
  lookup, is_nonempty,
}
use mathlib.Core.Option
use cohort_switch.Prelude.Sort.{sorted}
use cohort_switch.Errors.{Result, ok, err, value_error, key_error, ◌>>=◌}
use cohort_switch.Runtime.{Runtime}
use cohort_switch.Evaluation.Value.{Value}
use cohort_switch.Evaluation.Operators.{condition_matches}
use cohort_switch.Evaluation.Hashing.{stable_bucket, default_evaluation_namespace}
use cohort_switch.Evaluation.Models.{
  EvaluationContext, Condition, RolloutAllocation, ProgressiveStage, TargetingRule,
  FlagConfiguration, EvaluationResult, Reason, flag_disabled, targeting_match, percentage_rollout,
  progressive_rollout, default, is_set,
}

unfoldable pub rollout_variation : List RolloutAllocation → ℕ → Result String
rollout_variation [] bucket = err value_error
rollout_variation (a ∷ rollout) bucket =
    if ltb bucket a.end_bucket then ok a.variation else rollout_variation rollout bucket

-- `[stage for stage in stages if stage.activate_at <= now]`
unfoldable pub active_stages : ℕ → List ProgressiveStage → List ProgressiveStage
active_stages now [] = []
active_stages now (s ∷ stages) =
    if leb s.activate_at now then s ∷ active_stages now stages else active_stages now stages

-- `min(stages, key=activate_at)`: the first of the earliest, with `best` seen before the rest
unfoldable pub earliest : ProgressiveStage → List ProgressiveStage → ProgressiveStage
earliest best [] = best
earliest best (s ∷ stages) =
    earliest (if ltb s.activate_at best.activate_at then s else best) stages

-- `max(stages, key=activate_at)`: the first of the latest
unfoldable pub latest : ProgressiveStage → List ProgressiveStage → ProgressiveStage
latest best [] = best
latest best (s ∷ stages) = latest (if ltb best.activate_at s.activate_at then s else best) stages

-- What the stage in force serves.
unfoldable pub serve_stage : ProgressiveStage → ℕ → String
serve_stage current bucket =
    if ltb bucket current.percentage_basis_points
    then current.variation
    else current.fallback_variation

-- The variation, by the stages that are active.
unfoldable pub progressive_choice :
    List ProgressiveStage → List ProgressiveStage → ℕ → Result String
unfolding earliest latest serve_stage
progressive_choice [] [] bucket = err value_error
progressive_choice (s ∷ stages) [] bucket = ok (earliest s stages).fallback_variation
progressive_choice stages (a ∷ active) bucket = ok (serve_stage (latest a active) bucket)

unfoldable pub progressive_variation : List ProgressiveStage → ℕ → ℕ → Result String
unfolding active_stages progressive_choice
progressive_variation stages bucket now =
    progressive_choice stages (active_stages now stages) bucket

-- `_result`
unfoldable pub result_of :
    FlagConfiguration → String → Reason → Option String → ℕ → Result EvaluationResult
result_of config variation reason matched_rule evaluated_at =
    elim (lookup variation config.variations) [
      | none ↦ err key_error
      | some value ↦ ok (record {
        flag_key = config.flag_key;
        value = value;
        variation = variation;
        reason = reason;
        matched_rule = matched_rule;
        config_version = config.config_version;
        evaluated_at = evaluated_at;
      })
    ]

module _ (rt : Runtime) where
  -- `all(...)` over a generator: it stops at the first condition that fails
  unfoldable pub conditions_match : List Condition → EvaluationContext → Result Bool
  conditions_match [] context = ok true
  conditions_match (c ∷ conditions) context = do
    matched ← condition_matches rt c.operator (lookup c.attribute context.attributes) c.value
    let rest = conditions_match conditions context
    if matched then rest else ok false

  -- the loop over the rules, which ends at the first whose conditions hold
  unfoldable pub first_match :
      List TargetingRule → EvaluationContext → Result (Option TargetingRule)
  unfolding conditions_match
  first_match [] context = ok none
  first_match (r ∷ rules) context = do
    matched ← conditions_match r.conditions context
    let rest = first_match rules context
    if matched then ok (some r) else rest

  unfoldable pub get_bucket : FlagConfiguration → EvaluationContext → Result ℕ
  get_bucket configuration context =
      stable_bucket rt default_evaluation_namespace configuration.project_id
        configuration.environment_id configuration.flag_key context.subject_key configuration.salt

  -- the body of the loop, for a rule that matched
  unfoldable pub serve_rule :
      FlagConfiguration → EvaluationContext → ℕ → TargetingRule → Result EvaluationResult
  unfolding get_bucket rollout_variation progressive_variation result_of
  serve_rule configuration context now rule =
      if is_set rule.variation
      then result_of configuration (Option.get_or rule.variation "") targeting_match
          (some rule.name) now
      else if is_nonempty rule.progressive_stages
      then (do
        bucket ← get_bucket configuration context
        variation ← progressive_variation rule.progressive_stages bucket now
        result_of configuration variation progressive_rollout (some rule.name) now)
      else (do
        bucket ← get_bucket configuration context
        variation ← rollout_variation rule.rollout bucket
        result_of configuration variation percentage_rollout (some rule.name) now)

  -- what follows the loop, where no rule matched
  unfoldable pub serve_flag : FlagConfiguration → EvaluationContext → ℕ → Result EvaluationResult
  unfolding get_bucket rollout_variation progressive_variation result_of
  serve_flag configuration context now =
      if is_nonempty configuration.progressive_stages
      then (do
        bucket ← get_bucket configuration context
        variation ← progressive_variation configuration.progressive_stages bucket now
        result_of configuration variation progressive_rollout none now)
      else if is_nonempty configuration.rollout
      then (do
        bucket ← get_bucket configuration context
        variation ← rollout_variation configuration.rollout bucket
        result_of configuration variation percentage_rollout none now)
      else result_of configuration configuration.default_variation default none now

  unfoldable pub evaluate_flag : FlagConfiguration → EvaluationContext → ℕ → Result EvaluationResult
  unfolding first_match serve_rule serve_flag result_of
  evaluate_flag configuration context now =
      if not configuration.enabled
      then result_of configuration configuration.default_variation flag_disabled none now
      else (do
        matched ← first_match (sorted (λ r. r.priority) configuration.rules) context
        elim matched [
          | some rule ↦ serve_rule configuration context now rule
          | none ↦ serve_flag configuration context now
        ])
