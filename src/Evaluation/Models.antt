-- ===== src/Evaluation/Models.antt =====
-- backend/app/evaluation/models.py: the configuration that the engine reads, and its validators.
pub mod Soundness
pub mod Reordering
pub mod Reloading
use cohort_switch.Prelude.{
  ℕ, ◌+◌, String, Option, none, some, Bool, true, false, not, ◌&&◌, ◌||◌, List, [], ◌∷◌, ◌++◌, map,
  ◌==◌, ltb, if◌then◌else◌, str_eq, elem, keys, is_nonempty, any, all,
}
use cohort_switch.Errors.{Result, ok, err, value_error, raise_if, ◌>>=◌, ◌>>◌}
use cohort_switch.Evaluation.Value.{Value, null, bool, int, str, list, dict}

pub data FlagType : Type 0 where
  boolean string integer json : FlagType

pub data Reason : Type 0 where
  flag_disabled targeting_match percentage_rollout progressive_rollout default : Reason

-- `attributes` is a dict; a missing key is MISSING.
pub record EvaluationContext : Type 0 where
  pub subject_key : String
  pub attributes : List (String × Value)

pub record Condition : Type 0 where
  pub attribute : String
  pub operator : String
  pub value : Value

pub record RolloutAllocation : Type 0 where
  pub variation : String
  pub end_bucket : ℕ

-- `activate_at` is an instant in UTC, in microseconds from the first that a datetime can hold.
pub record ProgressiveStage : Type 0 where
  pub percentage_basis_points : ℕ
  pub variation : String
  pub fallback_variation : String
  pub activate_at : ℕ

pub record TargetingRule : Type 0 where
  pub name : String
  pub priority : ℕ
  pub conditions : List Condition
  pub variation : Option String
  pub rollout : List RolloutAllocation
  pub progressive_stages : List ProgressiveStage

pub record FlagConfiguration : Type 0 where
  pub project_id : String
  pub environment_id : String
  pub environment_key : String
  pub flag_id : String
  pub flag_key : String
  pub flag_type : FlagType
  pub enabled : Bool
  pub default_variation : String
  pub variations : List (String × Value)
  pub config_version : ℕ
  pub salt : String
  pub rules : List TargetingRule
  pub rollout : List RolloutAllocation
  pub progressive_stages : List ProgressiveStage

pub record EvaluationResult : Type 0 where
  pub flag_key : String
  pub value : Value
  pub variation : String
  pub reason : Reason
  pub matched_rule : Option String
  pub config_version : ℕ
  pub evaluated_at : ℕ

-- `if text:` on an optional text
abbrev pub is_set : Option String → Bool
is_set none = false
is_set (some s) = not (str_eq s "")

-- `Field(gt=0, le=10_000)` on `end_bucket`
unfoldable pub new_allocation : String → ℕ → Result RolloutAllocation
new_allocation variation end_bucket =
    if ltb 0 end_bucket && not (ltb 10000 end_bucket)
    then ok (record { variation = variation; end_bucket = end_bucket })
    else err value_error

abbrev pub one_if : Bool → ℕ
one_if b = if b then 1 else 0

-- `TargetingRule.require_action`, run when a rule is built
unfoldable pub require_action : TargetingRule → Result TargetingRule
require_action rule =
    if one_if (is_set rule.variation)
        + one_if (is_nonempty rule.rollout)
        + one_if (is_nonempty rule.progressive_stages)
      == 1
    then ok rule
    else err value_error

-- `sorted(set(items))`
abbrev pub insert_unique : ℕ → List ℕ → List ℕ
insert_unique x [] = x ∷ []
insert_unique x (y ∷ ys) =
    if ltb x y then x ∷ y ∷ ys else if x == y then y ∷ ys else y ∷ insert_unique x ys

unfoldable pub sorted_set : List ℕ → List ℕ
sorted_set [] = []
sorted_set (x ∷ xs) = insert_unique x (sorted_set xs)

unfoldable pub eq_list : List ℕ → List ℕ → Bool
eq_list [] [] = true
eq_list (x ∷ xs) (y ∷ ys) = x == y && eq_list xs ys
eq_list _ _ = false

-- `boundaries[-1]`, of a list that is not empty
abbrev pub last_of : ℕ → List ℕ → ℕ
last_of x [] = x
last_of x (y ∷ ys) = last_of y ys

abbrev pub boundaries : List RolloutAllocation → List ℕ
boundaries [] = []
boundaries (a ∷ rollout) = a.end_bucket ∷ boundaries rollout

unfoldable pub validate_rollout : List RolloutAllocation → Result (Unit {0})
unfolding sorted_set eq_list
validate_rollout [] = ok tt
validate_rollout (a ∷ rollout) =
    let ends = boundaries (a ∷ rollout) in
    raise_if
      (not (eq_list ends (sorted_set ends))
        || not (last_of a.end_bucket (boundaries rollout) == 10000))
      value_error

unfoldable pub has_type : FlagType → Value → Bool
has_type boolean (bool b) = true
has_type string (str s) = true
has_type integer (int n) = true
has_type json (list xs) = true
has_type json (dict fs) = true
has_type json null = true
has_type _ _ = false

-- the loop of `_validate_value` over `variations.items()`
unfoldable pub validate_values : FlagType → List (String × Value) → Result (Unit {0})
unfolding has_type
validate_values flag_type [] = ok tt
validate_values flag_type ((key, value) ∷ rest) =
    raise_if (not (has_type flag_type value)) value_error >> validate_values flag_type rest

abbrev pub allocation_references : List RolloutAllocation → List String
allocation_references [] = []
allocation_references (a ∷ rollout) = a.variation ∷ allocation_references rollout

abbrev pub stage_references : List ProgressiveStage → List String
stage_references [] = []
stage_references (s ∷ stages) = s.variation ∷ s.fallback_variation ∷ stage_references stages

abbrev pub variation_reference : Option String → List String
variation_reference none = []
variation_reference (some v) = if str_eq v "" then [] else v ∷ []

abbrev pub rule_references : List TargetingRule → List String
rule_references [] = []
rule_references (r ∷ rules) =
    variation_reference r.variation
    ++ (allocation_references r.rollout
        ++ (stage_references r.progressive_stages ++ rule_references rules))

abbrev pub variation_references : FlagConfiguration → List String
variation_references c =
    allocation_references c.rollout
    ++ (rule_references c.rules ++ stage_references c.progressive_stages)

unfoldable pub validate_rule_rollouts : List TargetingRule → Result (Unit {0})
unfolding validate_rollout
validate_rule_rollouts [] = ok tt
validate_rule_rollouts (r ∷ rules) = validate_rollout r.rollout >> validate_rule_rollouts rules

-- The validators of `FlagConfiguration(...)` and of `FlagConfiguration.model_validate`.
unfoldable pub validate_configuration : FlagConfiguration → Result FlagConfiguration
unfolding validate_values validate_rollout validate_rule_rollouts
validate_configuration c = do
  raise_if (not (elem c.default_variation (keys c.variations))) value_error
  validate_values c.flag_type c.variations
  raise_if (not (all (λ v. elem v (keys c.variations)) (variation_references c))) value_error
  validate_rollout c.rollout
  validate_rule_rollouts c.rules
  ok c
