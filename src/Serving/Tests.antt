-- ===== src/Serving/Tests.antt =====
-- The theorems on the evaluation endpoints at concrete inputs.
use cohort_switch.Prelude.{◌≡◌, refl, String, Bool, true, none, some, List, [], ◌∷◌, lookup}
use cohort_switch.Prelude.Sort.{sorted}
use cohort_switch.Errors.{ok}
use cohort_switch.Evaluation.Value.{str}
use cohort_switch.Evaluation.Models.{EvaluationResult}
use cohort_switch.Access.{Principal}
use cohort_switch.Serving.{BatchEvaluationRequest, scope, evaluate, evaluate_batch}
use cohort_switch.Serving.Agreement.{
  evaluate_rows, request_of, evaluate_from_rows, evaluate_batch_agrees,
}
use cohort_switch.Samples.{stand_in, run_create}
use cohort_switch.Samples.Warm.{
  stand_in-IsNaming, rows, found, first_load, warm, warm-IsCoherent, rows-HasUniqueKeys,
  rows-AllCompile,
}

abbrev sdk : Principal
sdk = record {
  user_id = none;
  api_key_id = some 3;
  kind = "SDK";
  organization_id = some 1;
  project_id = some 2;
  environment_id = some 4;
  scopes = "flags:read" ∷ "evaluate" ∷ [];
}

abbrev ask : BatchEvaluationRequest
ask = record {
  subject_key = "alice";
  attributes = ("country", str "KZ") ∷ [];
  flags = "new_checkout" ∷ "new_checkout" ∷ [];
}

sdk_scoped : scope sdk ≡ ok (2, 4)
unfolding scope
sdk_scoped = refl

evaluate_from_rows_example :
    (evaluate stand_in 20 30 20 true true sdk (request_of ask "new_checkout") rows warm).0
    ≡ evaluate_rows stand_in rows 20 (request_of ask "new_checkout") (scope sdk)
evaluate_from_rows_example =
    evaluate_from_rows stand_in stand_in-IsNaming 20 30 rows warm warm-IsCoherent 20 true true sdk
      (request_of ask "new_checkout")

batch_run :
    (results : List (String × EvaluationResult)) × ((evaluate_batch stand_in 20 30
        (λ k. 20)
        true
        (λ k. true)
        sdk
        ask
        rows
        warm).0
      ≡ ok results)
unfolding evaluate_batch first_load found run_create sorted
batch_run = (_, refl)

evaluate_batch_agrees_example :
    (r : EvaluationResult) × (lookup "new_checkout" batch_run.0 ≡ some r)
    × ((answers' written' : Bool)
        → (evaluate stand_in 20 30 20 answers' written' sdk
            (request_of ask "new_checkout")
            rows
            warm).0
          ≡ ok r)
evaluate_batch_agrees_example =
    evaluate_batch_agrees stand_in stand_in-IsNaming 20 30 rows warm warm-IsCoherent sdk 2 4
      sdk_scoped rows-HasUniqueKeys rows-AllCompile (λ k. 20) true (λ k. true) ask batch_run.1
      "new_checkout" refl
