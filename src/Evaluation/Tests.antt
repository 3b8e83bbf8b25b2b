-- ===== src/Evaluation/Tests.antt =====
-- Runs of the engine, and its theorems at concrete inputs.
use cohort_switch.Prelude.{
  ℕ, ◌≡◌, refl, sym, ap, ◌∙◌, ◌≢◌, true, false, Option, none, some, List, [], ◌∷◌, inl, inr, arith,
  String, Ordering,
}
use cohort_switch.Prelude.Int.{ℤ, pos, negsuc}
use cohort_switch.Prelude.Sort.{sorted}
use cohort_switch.Errors.{ok, err, type_error}
use cohort_switch.Runtime.{Runtime}
use cohort_switch.Evaluation.Value.{null, bool, str, py_eq}
use cohort_switch.Evaluation.Operators.{
  operator_of_name, equals_op, run_operator, condition_matches,
}
use cohort_switch.Evaluation.Operators.Laws.{text_holds_only_texts}
use cohort_switch.Evaluation.Hashing.{message, stable_bucket}
use cohort_switch.Evaluation.Hashing.Framing.{message-injective}
use cohort_switch.Evaluation.Models.{
  EvaluationContext, RolloutAllocation, ProgressiveStage, TargetingRule, FlagConfiguration,
  EvaluationResult, boolean, percentage_rollout, validate_configuration, require_action,
}
use cohort_switch.Evaluation.Models.Soundness.{
  IsSound, HasValidParts, validate_configuration-IsSound,
}
use cohort_switch.Evaluation.Engine.{
  get_bucket, evaluate_flag, progressive_variation, rollout_variation, serve_stage,
}
use cohort_switch.Evaluation.Engine.Rollout.{serves, count_from, share, count-eq-share}
use cohort_switch.Evaluation.Engine.Progressive.{Serves, progressive_variation-Serves}
use cohort_switch.Evaluation.Engine.Progressive.Order.{
  HaveDistinctTimes, HaveSameStages, progressive_variation_order, progressive_variation_first,
}
use cohort_switch.Evaluation.Engine.Served.{IsServed}
use cohort_switch.Evaluation.Engine.Totality.{evaluate_flag-IsServed}
use cohort_switch.Evaluation.Engine.Priority.{Decision, evaluate_flag-Decision}

-- A stand-in for the code outside the repository: small integers convert to themselves, a hash is the
-- end of its input, and versions are not read.
abbrev test_compare : ℕ → ℕ → Option Ordering
test_compare x y = some (Prim.Native.Nat.compare x y)

abbrev test_float : ℤ → Option ℕ
test_float (pos n) = some n
test_float (negsuc n) = none

abbrev test_runtime : Runtime
test_runtime = record {
  float_of_int = test_float;
  float_of_str = λ s. none;
  float_compare = test_compare;
  int_float_eq = λ n x. false;
  version_compare = λ a b. none;
  blake2b = λ m. 0 ∷ 0 ∷ 0 ∷ 0 ∷ 0 ∷ 0 ∷ 3 ∷ 232 ∷ m;
  uuid_str = λ n. "id";
}

abbrev half_rollout : List RolloutAllocation
half_rollout =
    record { variation = "on"; end_bucket = 2500 }
    ∷ record { variation = "off"; end_bucket = 10000 }
    ∷ []

abbrev country_rule : TargetingRule
country_rule = record {
  name = "kz";
  priority = 1;
  conditions = record { attribute = "country"; operator = "equals"; value = str "KZ" } ∷ [];
  variation = some "on";
  rollout = [];
  progressive_stages = [];
}

abbrev checkout : FlagConfiguration
checkout = record {
  project_id = "p";
  environment_id = "e";
  environment_key = "production";
  flag_id = "f";
  flag_key = "new_checkout";
  flag_type = boolean;
  enabled = true;
  default_variation = "off";
  variations = ("on", bool true) ∷ ("off", bool false) ∷ [];
  config_version = 3;
  salt = "s";
  rules = country_rule ∷ [];
  rollout = half_rollout;
  progressive_stages = [];
}

abbrev subject : EvaluationContext
subject = record { subject_key = "user_42"; attributes = ("country", str "US") ∷ [] }

checkout_is_valid : validate_configuration checkout ≡ ok checkout
unfolding validate_configuration
checkout_is_valid = refl

checkout_parts : HasValidParts checkout
unfolding require_action
checkout_parts = record { rules = ((refl, tt), tt); rollout = (omega arith, (omega arith, tt)) }

validate_configuration-IsSound_example : IsSound checkout
validate_configuration-IsSound_example =
    validate_configuration-IsSound checkout checkout_parts checkout_is_valid

subject_bucket : get_bucket test_runtime checkout subject ≡ ok 1000
unfolding get_bucket stable_bucket
subject_bucket = refl

evaluate_flag-IsServed_example :
    (r : EvaluationResult) × (evaluate_flag test_runtime checkout subject 5 ≡ ok r)
    × IsServed checkout 5 r
unfolding condition_matches py_eq run_operator operator_of_name equals_op
evaluate_flag-IsServed_example =
    evaluate_flag-IsServed test_runtime checkout subject 5 validate_configuration-IsSound_example
      subject_bucket (((false, refl), tt), tt)

abbrev served : EvaluationResult
served = record {
  flag_key = "new_checkout";
  value = bool true;
  variation = "on";
  reason = percentage_rollout;
  matched_rule = none;
  config_version = 3;
  evaluated_at = 5;
}

subject_is_served : evaluate_flag test_runtime checkout subject 5 ≡ ok served
unfolding evaluate_flag sorted condition_matches py_eq run_operator operator_of_name equals_op
    stable_bucket
subject_is_served = refl

evaluate_flag-Decision_example : Decision test_runtime subject checkout 5 (ok served)
evaluate_flag-Decision_example =
    evaluate_flag-Decision test_runtime subject checkout 5 served subject_is_served

half_share : share "on" 0 half_rollout ≡ 2500
unfolding share
half_share = refl

count-eq-share_example :
    count_from 0 10000 (λ b. serves "on" (rollout_variation half_rollout b))
    ≡ share "on" 0 half_rollout
count-eq-share_example = count-eq-share "on" 0 half_rollout (omega arith, (omega arith, refl))

abbrev first_stage : ProgressiveStage
first_stage = record {
  percentage_basis_points = 500;
  variation = "on";
  fallback_variation = "off";
  activate_at = 10;
}

abbrev second_stage : ProgressiveStage
second_stage = record {
  percentage_basis_points = 5000;
  variation = "on";
  fallback_variation = "off";
  activate_at = 20;
}

abbrev stages : List ProgressiveStage
stages = first_stage ∷ second_stage ∷ []

stages-ne-nil : stages ≢ []
stages-ne-nil e = cc

reversed-ne-nil : ◌≢◌ {A = List ProgressiveStage} (second_stage ∷ first_stage ∷ []) []
reversed-ne-nil e = cc

progressive_variation-Serves_example :
    (v : String) × (progressive_variation stages 700 25 ≡ ok v) × Serves 25 700 stages v
progressive_variation-Serves_example = progressive_variation-Serves stages 700 25 stages-ne-nil

stages-HaveDistinctTimes : HaveDistinctTimes stages
stages-HaveDistinctTimes s t (inl e) (inl f) h = e ∙ sym f
stages-HaveDistinctTimes s t (inl e) (inr (inl f)) h = absurd (
    ground (
      arith,
      ap (λ (u : ProgressiveStage). u.activate_at) e,
      ap (λ (u : ProgressiveStage). u.activate_at) f,
    ))
stages-HaveDistinctTimes s t (inl e) (inr (inr i)) h = elim i [ ]
stages-HaveDistinctTimes s t (inr (inl e)) (inl f) h = absurd (
    ground (
      arith,
      ap (λ (u : ProgressiveStage). u.activate_at) e,
      ap (λ (u : ProgressiveStage). u.activate_at) f,
    ))
stages-HaveDistinctTimes s t (inr (inl e)) (inr (inl f)) h = e ∙ sym f
stages-HaveDistinctTimes s t (inr (inl e)) (inr (inr i)) h = elim i [ ]
stages-HaveDistinctTimes s t (inr (inr i)) j h = elim i [ ]

stages-HaveSameStages : HaveSameStages stages (second_stage ∷ first_stage ∷ [])
stages-HaveSameStages s = (ground arith, ground arith)

progressive_variation_order_example :
    progressive_variation stages 700 25
    ≡ progressive_variation (second_stage ∷ first_stage ∷ []) 700 25
progressive_variation_order_example =
    progressive_variation_order stages (second_stage ∷ first_stage ∷ []) 700 25 stages-ne-nil
      reversed-ne-nil stages-HaveDistinctTimes stages-HaveSameStages

-- `second_stage` with the time of `first_stage`
abbrev rival_stage : ProgressiveStage
rival_stage = record second_stage { activate_at = 10 }

progressive_variation_first_example :
    progressive_variation (first_stage ∷ rival_stage ∷ []) 700 25 ≡ ok "off"
unfolding serve_stage
progressive_variation_first_example =
    progressive_variation_first [] (rival_stage ∷ []) first_stage 700 25 (omega arith) tt
      ((λ active. omega arith), tt)

rival_first : progressive_variation (rival_stage ∷ first_stage ∷ []) 700 25 ≡ ok "on"
unfolding progressive_variation
rival_first = refl

framed : message ("a" ∷ []) ≡ ok (0 ∷ 0 ∷ 0 ∷ 1 ∷ 97 ∷ [])
unfolding message
framed = refl

message-injective_example : ◌≡◌ {A = List String} ("a" ∷ []) ("a" ∷ [])
message-injective_example = message-injective ("a" ∷ []) ("a" ∷ []) refl framed framed refl

bucket_of_a : stable_bucket test_runtime "fv9" "p" "e" "f" "u" "s" ≡ ok 1000
unfolding stable_bucket
bucket_of_a = refl

text_holds_only_texts_example :
    (condition_matches test_runtime "in" (some null) (str "abc") ≡ err type_error)
    × (condition_matches test_runtime "not_in" (some null) (str "abc") ≡ err type_error)
    × (condition_matches test_runtime "contains" (some (str "abc")) null ≡ err type_error)
text_holds_only_texts_example = text_holds_only_texts test_runtime "abc" null refl
