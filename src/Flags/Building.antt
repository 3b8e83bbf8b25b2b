-- ===== src/Flags/Building.antt =====
-- `_build_configuration`, from a payload to a validated configuration, and `_update_from_configuration`,
-- from a configuration back to a payload.
pub mod Rules
pub mod Priorities
pub mod Soundness
use cohort_switch.Prelude.{
  ℕ, String, Option, none, some, Bool, true, false, not, ◌&&◌, ◌||◌, List, [], ◌∷◌, map, any, ◌==◌,
  str_eq, elem, is_nonempty, if◌then◌else◌,
}
use cohort_switch.Errors.{
  Result, ok, err, value_error, api, raise_if, except_value_error, ◌>>=◌, ◌>>◌,
}
use cohort_switch.Runtime.{Runtime}
use cohort_switch.Schemas.{
  VariationInput, ConditionInput, RolloutInput, ProgressiveStageInput, RuleInput, FlagUpdate,
  require_single_action,
}
use cohort_switch.Evaluation.Value.{Value}
use cohort_switch.Evaluation.Models.{
  Condition, RolloutAllocation, ProgressiveStage, TargetingRule, FlagConfiguration, require_action,
  validate_configuration,
}
use cohort_switch.Database.{Environment, FeatureFlag}
use cohort_switch.Flags.Allocations.{rollout_allocations, rollout_inputs}

-- `len(set(texts)) == len(texts)`
unfoldable pub are_distinct_texts : List String → Bool
are_distinct_texts [] = true
are_distinct_texts (x ∷ xs) = not (elem x xs) && are_distinct_texts xs

-- `len(set(numbers)) == len(numbers)`
unfoldable pub are_distinct : List ℕ → Bool
are_distinct [] = true
are_distinct (x ∷ xs) = not (any (λ y. x == y) xs) && are_distinct xs

abbrev pub variation_keys : List VariationInput → List String
variation_keys = map (λ i. i.key)

abbrev pub priorities : List RuleInput → List ℕ
priorities = map (λ r. r.priority)

-- `d[k] = v`, in a dict that is built: a later key replaces an earlier one
unfoldable pub set_entry {ℓ} : {V : Type ℓ} → String → V → List (String × V) → List (String × V)
set_entry k v [] = (k, v) ∷ []
set_entry k v ((j, w) ∷ d) = if str_eq j k then (j, v) ∷ d else (j, w) ∷ set_entry k v d

unfoldable pub add_entries : List (String × Value) → List VariationInput → List (String × Value)
unfolding set_entry
add_entries d [] = d
add_entries d (i ∷ inputs) = add_entries (set_entry i.key i.value d) inputs

unfoldable pub engine_condition : ConditionInput → Condition
engine_condition i = record { attribute = i.attribute; operator = i.operator; value = i.value }

unfoldable pub engine_stage : ProgressiveStageInput → ProgressiveStage
engine_stage i = record {
  percentage_basis_points = i.percentage_basis_points;
  variation = i.variation;
  fallback_variation = i.fallback_variation;
  activate_at = i.activate_at;
}

unfoldable pub engine_rule : RuleInput → Result TargetingRule
unfolding engine_condition engine_stage rollout_allocations require_action
engine_rule rule = do
  rollout ← rollout_allocations rule.rollout
  require_action (record {
    name = rule.name;
    priority = rule.priority;
    conditions = map engine_condition rule.conditions;
    variation = rule.variation;
    rollout = rollout;
    progressive_stages = map engine_stage rule.progressive_stages;
  })

unfoldable pub engine_rules : List RuleInput → Result (List TargetingRule)
unfolding engine_rule
engine_rules [] = ok []
engine_rules (r ∷ rules) = do first ← engine_rule r; rest ← engine_rules rules; ok (first ∷ rest)

-- What the payload of a write says of a configuration.
pub record ConfigInput : Type 0 where
  pub enabled : Bool
  pub default_variation : String
  pub variations : List VariationInput
  pub rules : List RuleInput
  pub rollout : List RolloutInput
  pub progressive_stages : List ProgressiveStageInput

module _ (rt : Runtime) (project_id : ℕ) (environment : Environment) (flag : FeatureFlag)
    (input : ConfigInput) (version : ℕ) (salt : String) where
  -- the body of the `try`
  unfoldable pub checked_configuration : List TargetingRule → Result FlagConfiguration
  unfolding add_entries engine_stage rollout_allocations validate_configuration
  checked_configuration rules = do
    rollout ← rollout_allocations input.rollout
    validate_configuration (record {
      project_id = rt.uuid_str project_id;
      environment_id = rt.uuid_str environment.id;
      environment_key = environment.key;
      flag_id = rt.uuid_str flag.id;
      flag_key = flag.key;
      flag_type = flag.flag_type;
      enabled = input.enabled;
      default_variation = input.default_variation;
      variations = add_entries [] input.variations;
      config_version = version;
      salt = salt;
      rules = rules;
      rollout = rollout;
      progressive_stages = map engine_stage input.progressive_stages;
    })

  -- The text of the exception, in the last error, is not modelled.
  unfoldable pub build_configuration : Result FlagConfiguration
  unfolding are_distinct_texts are_distinct engine_rules checked_configuration
  build_configuration = do
    raise_if (not (are_distinct_texts (variation_keys input.variations)))
        (api 422 "duplicate_variation" "Variation keys must be unique.")
    raise_if (not (are_distinct (priorities input.rules)))
        (api 422 "duplicate_rule_priority" "Rule priorities must be unique.")
    raise_if (is_nonempty input.rollout && is_nonempty input.progressive_stages)
        (api 422 "invalid_flag_action" "Use rollout or progressive stages, not both.")
    rules ← engine_rules input.rules
    except_value_error (checked_configuration rules) (api 422 "invalid_flag_configuration" "")

unfoldable pub condition_input : Condition → ConditionInput
condition_input c = record { attribute = c.attribute; operator = c.operator; value = c.value }

unfoldable pub stage_input : ProgressiveStage → ProgressiveStageInput
stage_input s = record {
  percentage_basis_points = s.percentage_basis_points;
  variation = s.variation;
  fallback_variation = s.fallback_variation;
  activate_at = s.activate_at;
}

abbrev pub variation_input : String × Value → VariationInput
variation_input (key, value) = record { key = key; value = value }

unfoldable pub rule_input : TargetingRule → Result RuleInput
unfolding condition_input stage_input rollout_inputs require_single_action
rule_input rule = do
  rollout ← rollout_inputs rule.rollout
  require_single_action (record {
    name = rule.name;
    priority = rule.priority;
    conditions = map condition_input rule.conditions;
    variation = rule.variation;
    rollout = rollout;
    progressive_stages = map stage_input rule.progressive_stages;
  })

unfoldable pub rule_inputs : List TargetingRule → Result (List RuleInput)
unfolding rule_input
rule_inputs [] = ok []
rule_inputs (r ∷ rules) = do first ← rule_input r; rest ← rule_inputs rules; ok (first ∷ rest)

unfoldable pub update_from_configuration : FlagConfiguration → ℕ → ℕ → Result FlagUpdate
unfolding rule_inputs rollout_inputs stage_input
update_from_configuration config environment_id expected_version = do
  rules ← rule_inputs config.rules
  rollout ← rollout_inputs config.rollout
  ok (record {
    environment_id = environment_id;
    expected_version = expected_version;
    name = none;
    description = none;
    enabled = config.enabled;
    default_variation = config.default_variation;
    variations = map variation_input config.variations;
    rules = rules;
    rollout = rollout;
    progressive_stages = map stage_input config.progressive_stages;
  })

-- The part of an update that describes the configuration.
abbrev pub input_of_update : FlagUpdate → ConfigInput
input_of_update u = record {
  enabled = u.enabled;
  default_variation = u.default_variation;
  variations = u.variations;
  rules = u.rules;
  rollout = u.rollout;
  progressive_stages = u.progressive_stages;
}
