-- ===== src/Flags/Building/Soundness.antt =====
-- backend/app/services/flags.py: what `_build_configuration` returns.
use cohort_switch.Prelude.{
  ℕ, ◌≡◌, refl, ap, subst, sym, ◌∙◌, String, true, not, ◌&&◌, List, [], map, all, All, elem, keys,
  is_nonempty,
}
use cohort_switch.Errors.{
  Error, api_error, integrity_error, type_error, key_error, overflow_error, Ensures, Ensures->>=,
  Ensures-at, Ensures-raise_if, Result, ok, err, value_error, api, raise_if, except_value_error,
  ◌>>=◌, ◌>>◌, >>=-eq-ok,
}
use cohort_switch.Runtime.{Runtime}
use cohort_switch.Evaluation.Models.{
  RolloutAllocation, TargetingRule, FlagConfiguration, validate_configuration, variation_references,
  validate_values, validate_rollout, validate_rule_rollouts,
}
use cohort_switch.Evaluation.Models.Soundness.{
  HasPositiveEnds, HasValidParts, IsSound, validate_configuration-IsSound, of_not-false,
}
use cohort_switch.Database.{Environment, FeatureFlag}
use cohort_switch.Flags.Allocations.{rollout_allocations}
use cohort_switch.Flags.Building.{
  ConfigInput, are_distinct, are_distinct_texts, variation_keys, priorities, add_entries,
  engine_stage, engine_rules, checked_configuration, build_configuration,
}
use cohort_switch.Flags.Building.Rules.{
  rollout_allocations-HasPositiveEnds, IsValidRule, engine_rules-IsValidRule,
}

-- The validators return the configuration that they are given.
pub validate_configuration-same :
    (c : FlagConfiguration) {d : FlagConfiguration} → validate_configuration c ≡ ok d → c ≡ d
unfolding validate_configuration
validate_configuration-same c h =
    let named = elem c.default_variation (keys c.variations) in
    let covered = all (λ v. elem v (keys c.variations)) (variation_references c) in
    let (u₁, h₁, r₁) = >>=-eq-ok (raise_if (not named) value_error) _ h in
    let (u₂, h₂, r₂) = >>=-eq-ok (validate_values c.flag_type c.variations) _ r₁ in
    let (u₃, h₃, r₃) = >>=-eq-ok (raise_if (not covered) value_error) _ r₂ in
    let (u₄, h₄, r₄) = >>=-eq-ok (validate_rollout c.rollout) _ r₃ in
    let (u₅, h₅, r₅) = >>=-eq-ok (validate_rule_rollouts c.rules) _ r₄ in cc

validate_configuration-Ensures {κ} :
    (P : FlagConfiguration → Type κ) (c : FlagConfiguration)
    → (validate_configuration c ≡ ok c → P c)
    → Ensures P (validate_configuration c)
validate_configuration-Ensures P c h = decide (validate_configuration c) refl
  where
    decide :
        (outcome : Result FlagConfiguration)
        → validate_configuration c ≡ outcome
        → Ensures P outcome
    decide (err e) eq = tt
    decide (ok d) eq =
        let same = validate_configuration-same c eq in subst P same (h (eq ∙ ap ok (sym same)))

Ensures-except {ℓ κ} :
    {A : Type ℓ} (P : A → Type κ) (outcome : Result A) (e : Error)
    → Ensures P outcome
    → Ensures P (except_value_error outcome e)
Ensures-except P (ok a) e h = h
Ensures-except P (err value_error) e h = tt
Ensures-except P (err (api_error s c m d)) e h = tt
Ensures-except P (err integrity_error) e h = tt
Ensures-except P (err type_error) e h = tt
Ensures-except P (err key_error) e h = tt
Ensures-except P (err overflow_error) e h = tt

module _ (rt : Runtime) (project_id : ℕ) (environment : Environment) (flag : FeatureFlag)
    (input : ConfigInput) (version : ℕ) (salt : String) where
  abbrev pub configuration_of : List TargetingRule → List RolloutAllocation → FlagConfiguration
  configuration_of rules rollout = record {
    project_id = rt.uuid_str project_id;
    environment_id = rt.uuid_str environment.id;
    environment_key = environment.key;
    flag_id = rt.uuid_str flag.id;
    flag_key = flag.key;
    flag_type = flag.flag_type;
    enabled = input.enabled;
    default_variation = input.default_variation;
    variations = add_entries [] input.variations;
    config_version = version;
    salt = salt;
    rules = rules;
    rollout = rollout;
    progressive_stages = map engine_stage input.progressive_stages;
  }

  abbrev checked : List TargetingRule → Result FlagConfiguration
  checked = checked_configuration rt project_id environment flag input version salt

  abbrev invalid_configuration : Error
  invalid_configuration = api 422 "invalid_flag_configuration" ""

  abbrev after_tests : Result FlagConfiguration
  after_tests =
      engine_rules input.rules >>= λ rules. except_value_error (checked rules) invalid_configuration

  abbrev test_actions : Result FlagConfiguration
  test_actions =
      raise_if (is_nonempty input.rollout && is_nonempty input.progressive_stages)
        (api 422 "invalid_flag_action" "Use rollout or progressive stages, not both.")
      >> after_tests

  abbrev test_priorities : Result FlagConfiguration
  test_priorities =
      raise_if (not (are_distinct (priorities input.rules)))
        (api 422 "duplicate_rule_priority" "Rule priorities must be unique.")
      >> test_actions

  -- What the write path has checked of a configuration that it returns.
  pub record IsBuilt (c : FlagConfiguration) : Type 0 where
    pub part_rules : List TargetingRule
    pub part_rollout : List RolloutAllocation
    pub form : c ≡ configuration_of part_rules part_rollout
    pub compiled : engine_rules input.rules ≡ ok part_rules
    pub distinct : are_distinct_texts (variation_keys input.variations) ≡ true
    pub prioritised : are_distinct (priorities input.rules) ≡ true
    pub parts : HasValidParts c
    pub valid : validate_configuration c ≡ ok c

  module _ (distinct : are_distinct_texts (variation_keys input.variations) ≡ true)
      (prioritised : are_distinct (priorities input.rules) ≡ true) where
    checked-IsBuilt :
        (rules : List TargetingRule)
        → engine_rules input.rules ≡ ok rules
        → All IsValidRule rules
        → Ensures IsBuilt (checked rules)
    unfolding checked_configuration
    checked-IsBuilt rules compiled valid_rules =
        Ensures->>= IsBuilt (rollout_allocations input.rollout) _ (λ rollout e.
          validate_configuration-Ensures IsBuilt (configuration_of rules rollout) (λ valid. record {
            part_rules = rules;
            part_rollout = rollout;
            form = refl;
            compiled = compiled;
            distinct = distinct;
            prioritised = prioritised;
            parts = record {
              rules = valid_rules;
              rollout =
                  Ensures-at HasPositiveEnds (rollout_allocations input.rollout) e
                    (rollout_allocations-HasPositiveEnds input.rollout);
            };
            valid = valid;
          }))

    after_tests-IsBuilt : Ensures IsBuilt after_tests
    after_tests-IsBuilt =
        Ensures->>= IsBuilt (engine_rules input.rules)
          (λ rules. except_value_error (checked rules) invalid_configuration)
          (λ rules e. Ensures-except IsBuilt (checked rules) invalid_configuration (
            checked-IsBuilt rules e (
              Ensures-at (All IsValidRule) (engine_rules input.rules) e
                (engine_rules-IsValidRule input.rules))))

  pub build_configuration-IsBuilt :
      Ensures IsBuilt (build_configuration rt project_id environment flag input version salt)
  unfolding build_configuration
  build_configuration-IsBuilt =
      Ensures-raise_if IsBuilt (not (are_distinct_texts (variation_keys input.variations)))
        (api 422 "duplicate_variation" "Variation keys must be unique.") test_priorities
        (λ distinct.
          Ensures-raise_if IsBuilt (not (are_distinct (priorities input.rules)))
            (api 422 "duplicate_rule_priority" "Rule priorities must be unique.") test_actions
            (λ prioritised.
              Ensures-raise_if IsBuilt
                (is_nonempty input.rollout && is_nonempty input.progressive_stages)
                (api 422 "invalid_flag_action" "Use rollout or progressive stages, not both.")
                after_tests
                (λ _. after_tests-IsBuilt (of_not-false _ distinct) (of_not-false _ prioritised))))

  -- A configuration that the write path returns is sound, whatever the payload.
  pub build_configuration-IsSound :
      {c : FlagConfiguration}
      → build_configuration rt project_id environment flag input version salt ≡ ok c
      → IsSound c
  build_configuration-IsSound e =
      let built = Ensures-at IsBuilt _ e build_configuration-IsBuilt in
      validate_configuration-IsSound _ built.parts built.valid
