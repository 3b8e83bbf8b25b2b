-- ===== src/Flags/Tests.antt =====
-- The theorems on flag configurations at concrete inputs.
use cohort_switch.Prelude.{◌<◌, ◌≡◌, refl, String, true, false, none, some, List, [], ◌∷◌, arith}
use cohort_switch.Errors.{ok, err, value_error, ◌>>=◌}
use cohort_switch.Schemas.{RolloutInput}
use cohort_switch.Evaluation.Value.{bool, str, py_eq}
use cohort_switch.Evaluation.Models.{
  RolloutAllocation, FlagConfiguration, EvaluationContext, boolean,
}
use cohort_switch.Evaluation.Models.Soundness.{IsSound}
use cohort_switch.Evaluation.Engine.{rollout_variation, evaluate_flag}
use cohort_switch.Evaluation.Engine.Rollout.{serves, count_from}
use cohort_switch.Database.{FeatureFlag, FlagConfig, FlagVariation, AllocationRow, RuleRow}
use cohort_switch.Prelude.Reordering.{done, kept, swapped}
use cohort_switch.Evaluation.Operators.{
  condition_matches, run_operator, operator_of_name, equals_op,
}
use cohort_switch.Flags.Allocations.{rollout_allocations, rollout_inputs}
use cohort_switch.Flags.Allocations.Sums.{requested, total}
use cohort_switch.Flags.Allocations.RoundTrip.{
  invalid_rollout, rollout_allocations_shares, rollout_allocations-rollout_inputs,
  rollout_inputs-rollout_allocations, rollout_allocations_refused,
}
use cohort_switch.Flags.Building.{build_configuration}
use cohort_switch.Flags.Building.Soundness.{build_configuration-IsSound}
use cohort_switch.Flags.Storage.{compile_configuration, persist_children, delete_children, db_rule}
use cohort_switch.Flags.Storage.Orders.{reloaded}
use cohort_switch.Samples.{stand_in, percentages, content, production}
use cohort_switch.Flags.Storage.Reload.{IsLoaded, loaded, stored, evaluate_flag-stored}

abbrev allocations : List RolloutAllocation
allocations =
    record { variation = "on"; end_bucket = 2500 }
    ∷ record { variation = "off"; end_bucket = 10000 }
    ∷ []

abbrev too_many : List RolloutInput
too_many = record { variation = "late"; percentage_basis_points = 1 } ∷ percentages

rollout_allocations_shares_example :
    (r : List RolloutAllocation) × (rollout_allocations percentages ≡ ok r)
    × ((v : String)
        → count_from 0 10000 (λ b. serves v (rollout_variation r b)) ≡ requested v percentages)
unfolding total
rollout_allocations_shares_example =
    rollout_allocations_shares percentages (omega arith, (omega arith, tt)) (omega arith)

rollout_allocations-rollout_inputs_example :
    (inputs : List RolloutInput) × (rollout_inputs allocations ≡ ok inputs)
    × (rollout_allocations inputs ≡ ok allocations)
rollout_allocations-rollout_inputs_example =
    rollout_allocations-rollout_inputs allocations (omega arith, (omega arith, refl))

rollout_inputs-rollout_allocations_example :
    (rollout_allocations percentages >>= rollout_inputs) ≡ ok percentages
unfolding total
rollout_inputs-rollout_allocations_example =
    rollout_inputs-rollout_allocations percentages (omega arith, (omega arith, tt)) (omega arith)

rollout_allocations_refused_example :
    (10001 < 10000 → rollout_allocations too_many ≡ err invalid_rollout)
    × (10000 < 10001 → rollout_allocations too_many ≡ err value_error)
unfolding total
rollout_allocations_refused_example =
    rollout_allocations_refused too_many (omega arith, (omega arith, (omega arith, tt)))
      (λ e. absurd (cc))

abbrev checkout_flag : FeatureFlag
checkout_flag = record {
  id = 3;
  project_id = 2;
  key = "new_checkout";
  name = "Checkout";
  description = "";
  flag_type = boolean;
  archived_at = none;
}

abbrev checkout_config : FlagConfig
checkout_config = record {
  id = 9;
  flag_id = 3;
  environment_id = 4;
  enabled = false;
  default_variation_key = "on";
  current_version = 1;
  salt = "s";
  variations = [];
  rules = [];
  rollouts = [];
  progressive_stages = [];
}

abbrev built : FlagConfiguration
built = record {
  project_id = "xx";
  environment_id = "xxxx";
  environment_key = "production";
  flag_id = "xxx";
  flag_key = "new_checkout";
  flag_type = boolean;
  enabled = true;
  default_variation = "off";
  variations = ("on", bool true) ∷ ("off", bool false) ∷ [];
  config_version = 2;
  salt = "s";
  rules =
      record {
        name = "kz";
        priority = 1;
        conditions = record { attribute = "country"; operator = "equals"; value = str "KZ" } ∷ [];
        variation = some "on";
        rollout = [];
        progressive_stages = [];
      }
      ∷ record {
        name = "beta";
        priority = 0;
        conditions = [];
        variation = none;
        rollout = allocations;
        progressive_stages = [];
      }
      ∷ [];
  rollout = allocations;
  progressive_stages = [];
}

build_configuration_test :
    build_configuration stand_in 2 production checkout_flag content 2 "s" ≡ ok built
unfolding build_configuration
build_configuration_test = refl

build_configuration-IsSound_example : IsSound built
build_configuration-IsSound_example =
    build_configuration-IsSound stand_in 2 production checkout_flag content 2 "s"
      build_configuration_test

abbrev on_row : FlagVariation
on_row = record { key = "on"; value = bool true }

abbrev off_row : FlagVariation
off_row = record { key = "off"; value = bool false }

abbrev low_row : AllocationRow
low_row = record { variation_key = "on"; end_bucket = 2500 }

abbrev high_row : AllocationRow
high_row = record { variation_key = "off"; end_bucket = 10000 }

abbrev kz_row : RuleRow
kz_row = record {
  name = "kz";
  priority = 1;
  enabled = true;
  serve_variation_key = some "on";
  conditions = record { attribute = "country"; operator = "equals"; value = str "KZ" } ∷ [];
  rollouts = [];
  progressive_stages = [];
}

abbrev beta_row : List AllocationRow → RuleRow
beta_row rollouts = record {
  name = "beta";
  priority = 0;
  enabled = true;
  serve_variation_key = none;
  conditions = [];
  rollouts = rollouts;
  progressive_stages = [];
}

-- The stored rows, with every list of two in the other order.
abbrev found_row : FlagConfig
found_row = record (stored checkout_config content 2 built) {
  variations = off_row ∷ on_row ∷ [];
  rollouts = high_row ∷ low_row ∷ [];
  progressive_stages = [];
  rules = beta_row (high_row ∷ low_row ∷ []) ∷ kz_row ∷ [];
}

found_row-IsLoaded : IsLoaded (stored checkout_config content 2 built) found_row
unfolding persist_children delete_children db_rule
found_row-IsLoaded =
    loaded (off_row ∷ on_row ∷ []) (high_row ∷ low_row ∷ []) []
      (beta_row (low_row ∷ high_row ∷ []) ∷ kz_row ∷ [])
      (beta_row (high_row ∷ low_row ∷ []) ∷ kz_row ∷ []) (swapped on_row off_row [])
      (swapped low_row high_row []) done (swapped kz_row (beta_row (low_row ∷ high_row ∷ [])) [])
      (
        reloaded [] (high_row ∷ low_row ∷ []) [] done (swapped low_row high_row []) done,
        (reloaded kz_row.conditions [] [] (kept _ done) done done, tt),
      )

abbrev in_kz : EvaluationContext
in_kz = record { subject_key = "s"; attributes = ("country", str "KZ") ∷ [] }

evaluate_flag-stored_example :
    (d : FlagConfiguration) × (compile_configuration stand_in checkout_flag production found_row
      ≡ ok d)
    × (evaluate_flag stand_in d in_kz 5 ≡ evaluate_flag stand_in built in_kz 5)
unfolding condition_matches py_eq run_operator operator_of_name equals_op
evaluate_flag-stored_example =
    evaluate_flag-stored stand_in checkout_flag production checkout_config content 2 built found_row
      in_kz 5 refl refl build_configuration_test found_row-IsLoaded (λ s t i j e. elim i [ ])
      ((λ s t i j e. elim i [ ]), ((λ s t i j e. elim i [ ]), tt)) (((true, refl), tt), (tt, tt))
