-- ===== src/Flags/Storage.antt =====
-- backend/app/services/flags.py: `_persist_children`, `_delete_children`, `compile_configuration` and
-- `_response`, between a configuration and its rows.
pub mod Entries
pub mod Parts
pub mod Orders
pub mod Keys
pub mod Reload
use cohort_switch.Prelude.{
  ℕ, String, Option, none, some, Bool, true, false, List, [], ◌∷◌, ◌++◌, map, if◌then◌else◌,
}
use cohort_switch.Prelude.Sort.{sorted}
use cohort_switch.Errors.{Result, ok, err, ◌>>=◌}
use cohort_switch.Runtime.{Runtime}
use cohort_switch.Schemas.{FlagResponse}
use cohort_switch.Evaluation.Value.{Value}
use cohort_switch.Evaluation.Models.{
  Condition, RolloutAllocation, ProgressiveStage, TargetingRule, FlagConfiguration, new_allocation,
  require_action, validate_configuration,
}
use cohort_switch.Database.{
  Environment, FeatureFlag, FlagVariation, RuleCondition, AllocationRow, StageRow, RuleRow,
  FlagConfig,
}
use cohort_switch.Flags.Allocations.{rollout_inputs}
use cohort_switch.Flags.Building.{set_entry, rule_inputs, stage_input, variation_input}

unfoldable pub db_stage : ProgressiveStage → StageRow
db_stage s = record {
  variation_key = s.variation;
  fallback_variation_key = s.fallback_variation;
  percentage_basis_points = s.percentage_basis_points;
  activate_at = s.activate_at;
}

abbrev pub db_variation : String × Value → FlagVariation
db_variation (key, value) = record { key = key; value = value }

abbrev pub db_allocation : RolloutAllocation → AllocationRow
db_allocation a = record { variation_key = a.variation; end_bucket = a.end_bucket }

abbrev pub db_condition : Condition → RuleCondition
db_condition c = record { attribute = c.attribute; operator = c.operator; value = c.value }

unfoldable pub db_rule : TargetingRule → RuleRow
unfolding db_stage
db_rule r = record {
  name = r.name;
  priority = r.priority;
  enabled = true;
  serve_variation_key = r.variation;
  conditions = map db_condition r.conditions;
  rollouts = map db_allocation r.rollout;
  progressive_stages = map db_stage r.progressive_stages;
}

unfoldable pub delete_children : FlagConfig → FlagConfig
delete_children config = record config {
  variations = [];
  rules = [];
  rollouts = [];
  progressive_stages = [];
}

unfoldable pub persist_children : FlagConfig → FlagConfiguration → FlagConfig
unfolding db_stage db_rule
persist_children config compiled = record config {
  variations = config.variations ++ map db_variation compiled.variations;
  rollouts = config.rollouts ++ map db_allocation compiled.rollout;
  progressive_stages = config.progressive_stages ++ map db_stage compiled.progressive_stages;
  rules = config.rules ++ map db_rule compiled.rules;
}

unfoldable pub engine_stage_of : StageRow → ProgressiveStage
engine_stage_of s = record {
  percentage_basis_points = s.percentage_basis_points;
  variation = s.variation_key;
  fallback_variation = s.fallback_variation_key;
  activate_at = s.activate_at;
}

abbrev pub condition_of : RuleCondition → Condition
condition_of c = record { attribute = c.attribute; operator = c.operator; value = c.value }

-- one engine allocation for each row, in the order given
unfoldable pub allocations_of : List AllocationRow → Result (List RolloutAllocation)
unfolding new_allocation
allocations_of [] = ok []
allocations_of (item ∷ rows) = do
  allocation ← new_allocation item.variation_key item.end_bucket
  rest ← allocations_of rows
  ok (allocation ∷ rest)

unfoldable pub rule_of : RuleRow → Result TargetingRule
unfolding allocations_of engine_stage_of require_action
rule_of rule = do
  rollout ← allocations_of (sorted (λ item. item.end_bucket) rule.rollouts)
  require_action (record {
    name = rule.name;
    priority = rule.priority;
    conditions = map condition_of rule.conditions;
    variation = rule.serve_variation_key;
    rollout = rollout;
    progressive_stages = map engine_stage_of rule.progressive_stages;
  })

-- the comprehension over the rules that are sorted already: rules that are not enabled are left out
unfoldable pub rules_of : List RuleRow → Result (List TargetingRule)
unfolding rule_of
rules_of [] = ok []
rules_of (row ∷ rows) =
    let rest = rules_of rows in
    if row.enabled then (do first ← rule_of row; others ← rest; ok (first ∷ others)) else rest

-- `{item.key: item.value for item in config.variations}`
unfoldable pub entries_of : List (String × Value) → List FlagVariation → List (String × Value)
unfolding set_entry
entries_of d [] = d
entries_of d (item ∷ rows) = entries_of (set_entry item.key item.value d) rows

module _ (rt : Runtime) (flag : FeatureFlag) (environment : Environment) where
  -- `flag` and `environment` are the rows that `config` refers to. The children of `config` stand in the
  -- order in which they were loaded, which the queries leave open.
  unfoldable pub compile_configuration : FlagConfig → Result FlagConfiguration
  unfolding rules_of allocations_of entries_of engine_stage_of validate_configuration
  compile_configuration config = do
    rules ← rules_of (sorted (λ item. item.priority) config.rules)
    rollout ← allocations_of (sorted (λ item. item.end_bucket) config.rollouts)
    validate_configuration (record {
      project_id = rt.uuid_str flag.project_id;
      environment_id = rt.uuid_str config.environment_id;
      environment_key = environment.key;
      flag_id = rt.uuid_str config.flag_id;
      flag_key = flag.key;
      flag_type = flag.flag_type;
      enabled = config.enabled;
      default_variation = config.default_variation_key;
      variations = entries_of [] config.variations;
      config_version = config.current_version;
      salt = config.salt;
      rules = rules;
      rollout = rollout;
      progressive_stages = map engine_stage_of config.progressive_stages;
    })

-- `_response`; `environment_id` is the number that `UUID(config.environment_id)` reads.
unfoldable pub response : FeatureFlag → ℕ → FlagConfiguration → Result FlagResponse
unfolding rule_inputs rollout_inputs stage_input
response flag environment_id config = do
  rules ← rule_inputs config.rules
  rollout ← rollout_inputs config.rollout
  ok (record {
    id = flag.id;
    project_id = flag.project_id;
    environment_id = environment_id;
    key = flag.key;
    name = flag.name;
    description = flag.description;
    flag_type = config.flag_type;
    enabled = config.enabled;
    default_variation = config.default_variation;
    current_version = config.config_version;
    archived_at = flag.archived_at;
    variations = map variation_input config.variations;
    rules = rules;
    rollout = rollout;
    progressive_stages = map stage_input config.progressive_stages;
  })
