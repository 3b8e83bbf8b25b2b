-- ===== src/Flags/Storage/Reload.antt =====
-- backend/app/services/flags.py: a configuration that is stored and compiled again.
use cohort_switch.Prelude.{
  All, ℕ, ◌≡◌, refl, sym, subst, ◌∙◌, ap, String, true, List, [], map, keys,
}
use cohort_switch.Prelude.Sort.{sorted, All-sorted}
use cohort_switch.Errors.{Result, ok, ◌>>=◌, Ensures-at}
use cohort_switch.Runtime.{Runtime}
use cohort_switch.Evaluation.Value.{Value}
use cohort_switch.Evaluation.Models.{
  RolloutAllocation, ProgressiveStage, TargetingRule, FlagConfiguration, EvaluationContext,
  validate_configuration,
}
use cohort_switch.Evaluation.Models.Soundness.{
  IsSoundRule, validate_configuration-IsSound, validate_configuration-HasPassed,
}
use cohort_switch.Evaluation.Models.Reordering.{
  by_priority, validate_configuration-ok, HasPassed-by_priority,
}
use cohort_switch.Evaluation.Engine.{evaluate_flag}
use cohort_switch.Database.{
  Environment, FeatureFlag, FlagConfig, FlagVariation, AllocationRow, StageRow, RuleRow,
}
use cohort_switch.Flags.Building.{are_distinct_texts, ConfigInput, build_configuration}
use cohort_switch.Flags.Building.Soundness.{IsBuilt, build_configuration-IsBuilt}
use cohort_switch.Flags.Storage.{
  db_rule, engine_stage_of, allocations_of, entries_of, delete_children, persist_children,
  compile_configuration,
}
use cohort_switch.Flags.Storage.Entries.{add_entries-distinct}
use cohort_switch.Prelude.Reordering.{Reordering, IsDistinct, IsDistinct-map, sorted-Reordering}
use cohort_switch.Evaluation.Models.Reloading.{HasPassed-Reordering}
use cohort_switch.Evaluation.Engine.Served.{CanDecide}
use cohort_switch.Evaluation.Engine.Progressive.Order.{HaveDistinctTimes}
use cohort_switch.Evaluation.Engine.Reordering.{AreAlike}
use cohort_switch.Evaluation.Engine.Reordered.{evaluate_flag-reordered}
use cohort_switch.Flags.Building.Priorities.{engine_rules-IsDistinct}
use cohort_switch.Flags.Storage.Orders.{
  AreReloaded, AreReloaded-sorted, allocations_of-Reordering, stages-Reordering,
  rules_of-AreReloaded,
}
use cohort_switch.Flags.Storage.Keys.{IsDistinct-texts, entries_of-Reordering}
use cohort_switch.Flags.Storage.Parts.{sorted-map}

-- The row of a configuration with its children in another order: what a query may give for it.
pub data IsLoaded (row : FlagConfig) : FlagConfig → Type 0 where
  loaded :
      (variations : List FlagVariation) (rollouts : List AllocationRow) (stages : List StageRow)
      (rows rules : List RuleRow)
      → Reordering row.variations variations
      → Reordering row.rollouts rollouts
      → Reordering row.progressive_stages stages
      → Reordering row.rules rows
      → AreReloaded rows rules
      → IsLoaded row (record row {
        variations = variations;
        rollouts = rollouts;
        progressive_stages = stages;
        rules = rules;
      })

-- The rows of a flag's configuration once its new content is written.
abbrev pub stored : FlagConfig → ConfigInput → ℕ → FlagConfiguration → FlagConfig
stored config input version compiled =
    persist_children
      (delete_children (record config {
        enabled = input.enabled;
        default_variation_key = input.default_variation;
        current_version = version;
      }))
      compiled

module _ (rt : Runtime) (flag : FeatureFlag) (environment : Environment) (config : FlagConfig)
    (input : ConfigInput) (version : ℕ) where
  abbrev assemble :
      ℕ
      → ℕ
      → List (String × Value)
      → List ProgressiveStage
      → List TargetingRule
      → List RolloutAllocation
      → FlagConfiguration
  assemble environment_id flag_id variations stages rules rollout = record {
    project_id = rt.uuid_str flag.project_id;
    environment_id = rt.uuid_str environment_id;
    environment_key = environment.key;
    flag_id = rt.uuid_str flag_id;
    flag_key = flag.key;
    flag_type = flag.flag_type;
    enabled = input.enabled;
    default_variation = input.default_variation;
    variations = variations;
    config_version = version;
    salt = config.salt;
    rules = rules;
    rollout = rollout;
    progressive_stages = stages;
  }

  abbrev Then :
      List (String × Value)
      → List ProgressiveStage
      → Result (List TargetingRule)
      → Result (List RolloutAllocation)
      → Result FlagConfiguration
  Then variations stages outcome last = outcome >>= λ rules. last >>= λ rollout.
      validate_configuration
        (assemble config.environment_id config.flag_id variations stages rules rollout)

  -- the same configuration in another order of its parts
  abbrev in_order :
      List (String × Value)
      → List TargetingRule
      → List ProgressiveStage
      → FlagConfiguration
      → FlagConfiguration
  in_order variations rules stages c = record c {
    variations = variations;
    rules = rules;
    progressive_stages = stages;
  }

  module _ (c : FlagConfiguration)
      (built : IsBuilt rt flag.project_id environment flag input version config.salt c)
      (same_flag : config.flag_id ≡ flag.id)
      (same_environment : config.environment_id ≡ environment.id) where
    assembles :
        (variations : List (String × Value)) (rules : List TargetingRule)
        (stages : List ProgressiveStage)
        → assemble config.environment_id config.flag_id variations stages rules c.rollout
          ≡ in_order variations rules stages c
    assembles variations rules stages =
        rw (same_flag, same_environment)
          (subst
            (λ (d : FlagConfiguration).
              assemble environment.id flag.id variations stages rules d.rollout
              ≡ in_order variations rules stages d)
            (sym built.form) refl)

    distinct_keys : are_distinct_texts (keys c.variations) ≡ true
    distinct_keys =
        subst (λ (d : FlagConfiguration). are_distinct_texts (keys d.variations) ≡ true)
          (sym built.form) (add_entries-distinct input.variations built.distinct)

    priorities-IsDistinct : IsDistinct (λ r. r.priority) c.rules
    priorities-IsDistinct =
        subst (λ (d : FlagConfiguration). IsDistinct (λ r. r.priority) d.rules) (sym built.form)
          (engine_rules-IsDistinct input.rules built.part_rules built.compiled built.prioritised)

    -- the rules of the loaded rows, by priority
    loaded_rules :
        (rows found : List RuleRow)
        → Reordering (map db_rule c.rules) rows
        → AreReloaded rows found
        → AreReloaded
            (map db_rule (sorted (λ r. r.priority) c.rules))
            (sorted (λ row. row.priority) found)
    loaded_rules rows found r likes =
        let by = λ (x : TargetingRule). x.priority in
        let distinct : IsDistinct (λ row. row.priority) (map db_rule c.rules) =
          IsDistinct-map db_rule by (λ row. row.priority) (λ _. unfold db_rule in refl) c.rules
            priorities-IsDistinct in
        let order =
          sym (sorted-Reordering (λ row. row.priority) (map db_rule c.rules) rows r distinct)
          ∙ sorted-map db_rule by (λ row. row.priority) (λ _. unfold db_rule in refl) c.rules in
        subst (λ (l : List RuleRow). AreReloaded l (sorted (λ row. row.priority) found)) order
          (AreReloaded-sorted rows found likes)

    -- Rows that a query may give for the stored ones compile to the configuration, in another order.
    compile_configuration-IsLoaded :
        (row : FlagConfig)
        → IsLoaded (stored config input version c) row
        → (variations : List (String × Value)) × (rules : List TargetingRule) × (stages : List
            ProgressiveStage)
          × (compile_configuration rt flag environment row
              ≡ ok (in_order variations rules stages c))
          × Reordering c.variations variations
          × AreAlike (sorted (λ r. r.priority) c.rules) rules
          × Reordering c.progressive_stages stages
    unfolding compile_configuration persist_children delete_children
    compile_configuration-IsLoaded _ (loaded vs ro ss rows ru hv hr hs hrows likes) =
        let sound = validate_configuration-IsSound c built.parts built.valid in
        let (d, entries, same) = entries_of-Reordering c.variations vs distinct_keys hv in
        let by = λ (x : TargetingRule). x.priority in
        let (rules, compiled, alike_rules) =
          rules_of-AreReloaded c.variations (sorted by c.rules) (sorted (λ row. row.priority) ru)
            (All-sorted by (IsSoundRule c.variations) c.rules sound.rules)
            (loaded_rules rows ru hrows likes) in
        let stages = map engine_stage_of ss in
        let staged = stages-Reordering c.progressive_stages ss hs in
        let rolled = allocations_of-Reordering c.variations c.rollout ro sound.rollout hr in
        let last = allocations_of (sorted (λ item. item.end_bucket) ro) in
        let passed =
          HasPassed-Reordering (by_priority c) d rules stages same alike_rules staged
            (HasPassed-by_priority c (validate_configuration-HasPassed c built.valid)) in
        (
          d,
          rules,
          stages,
          ap (λ o. Then (entries_of [] vs) stages o last) compiled
              ∙ ap (λ o. Then (entries_of [] vs) stages (ok rules) o) rolled
              ∙ ap (λ e. Then e stages (ok rules) (ok c.rollout)) entries
              ∙ ap validate_configuration (assembles d rules stages)
              ∙ validate_configuration-ok (in_order d rules stages c) passed,
          same,
          alike_rules,
          staged,
        )

  -- The rows of a configuration that was built compile, in whatever order they are loaded, to a
  -- configuration under which an evaluation has the outcome that it has under the one that was built,
  -- where the row belongs to the flag and the environment, no two different stages of one list start at
  -- one time, and no condition of the rules raises for the subject.
  pub evaluate_flag-stored :
      (c : FlagConfiguration) (row : FlagConfig) (context : EvaluationContext) (now : ℕ)
      → config.flag_id ≡ flag.id
      → config.environment_id ≡ environment.id
      → build_configuration rt flag.project_id environment flag input version config.salt ≡ ok c
      → IsLoaded (stored config input version c) row
      → HaveDistinctTimes c.progressive_stages
      → All (λ r. HaveDistinctTimes r.progressive_stages) c.rules
      → All (CanDecide rt context) c.rules
      → (d : FlagConfiguration) × (compile_configuration rt flag environment row ≡ ok d)
        × (evaluate_flag rt d context now ≡ evaluate_flag rt c context now)
  evaluate_flag-stored c row context now same_flag same_environment e loads times rule_times
        decide =
      let built =
        Ensures-at (IsBuilt rt flag.project_id environment flag input version config.salt) _ e (
          build_configuration-IsBuilt rt flag.project_id environment flag input version
            config.salt) in
      let (variations, rules, stages, compiled, same, likes, staged) =
        compile_configuration-IsLoaded c built same_flag same_environment row loads in
      (
        in_order variations rules stages c,
        compiled,
        evaluate_flag-reordered rt context now c variations rules stages same
            (IsDistinct-texts c.variations (distinct_keys c built same_flag same_environment)) likes
            staged times rule_times decide,
      )
