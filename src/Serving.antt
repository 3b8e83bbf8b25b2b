-- ===== src/Serving.antt =====
-- backend/app/api/evaluation.py: the evaluation endpoints, from the key of the request to its results.
pub mod Agreement
mod Tests
use cohort_switch.Prelude.{ℕ, String, Option, none, some, Bool, List, [], ◌∷◌, lookup}
use cohort_switch.Errors.{Result, ok, err, api, key_error, ◌>>=◌, ◌>>◌}
use cohort_switch.Runtime.{Runtime}
use cohort_switch.Evaluation.Value.{Value}
use cohort_switch.Evaluation.Models.{FlagConfiguration, EvaluationContext, EvaluationResult}
use cohort_switch.Evaluation.Engine.{evaluate_flag}
use cohort_switch.Access.{Principal, require_api_scope}
use cohort_switch.Flags.Building.{set_entry}
use cohort_switch.Flags.Tables.{Db, or_raise}
use cohort_switch.Cache.{Redis, load_configuration, load_configurations}

pub record EvaluationRequest : Type 0 where
  pub flag_key : String
  pub subject_key : String
  pub attributes : List (String × Value)

pub record BatchEvaluationRequest : Type 0 where
  pub subject_key : String
  pub attributes : List (String × Value)
  pub flags : List String

-- the project and the environment of the key, where it has both
abbrev pub scope_of : Option ℕ → Option ℕ → Result (ℕ × ℕ)
scope_of (some project_id) (some environment_id) = ok (project_id, environment_id)
scope_of _ _ = err (api 403 "invalid_key_scope" "API key is not scoped to an environment.")

-- `_scope`
unfoldable pub scope : Principal → Result (ℕ × ℕ)
unfolding require_api_scope
scope principal =
    require_api_scope principal "evaluate" >> scope_of principal.project_id principal.environment_id

abbrev pub context_of : String → List (String × Value) → EvaluationContext
context_of subject_key attributes = record { subject_key = subject_key; attributes = attributes }

-- An instant counts microseconds; `at` is when a flag is evaluated.
module _ (rt : Runtime) (now ttl : ℕ) where
  unfoldable pub evaluate_loaded :
      ℕ → EvaluationRequest → Result FlagConfiguration × Redis → Result EvaluationResult × Redis
  unfolding evaluate_flag
  evaluate_loaded at payload (config, redis) = (
    (do c ← config; evaluate_flag rt c (context_of payload.subject_key payload.attributes) at),
    redis,
  )

  -- what follows `_scope`
  unfoldable pub evaluate_in :
      ℕ
      → Bool
      → Bool
      → EvaluationRequest
      → Db
      → Redis
      → Result (ℕ × ℕ)
      → Result EvaluationResult × Redis
  unfolding load_configuration evaluate_loaded
  evaluate_in at answers written payload db redis (err e) = (err e, redis)
  evaluate_in at answers written payload db redis (ok (project_id, environment_id)) =
      evaluate_loaded at payload (
        load_configuration rt now ttl project_id environment_id answers written payload.flag_key db
          redis)

  unfoldable pub evaluate :
      ℕ → Bool → Bool → Principal → EvaluationRequest → Db → Redis → Result EvaluationResult × Redis
  unfolding scope evaluate_in
  evaluate at answers written principal payload db redis =
      evaluate_in at answers written payload db redis (scope principal)

  -- `{key: evaluate_flag(configs[key], context) for key in payload.flags}`
  unfoldable pub evaluate_each :
      (String → ℕ)
      → EvaluationContext
      → List (String × FlagConfiguration)
      → List String
      → List (String × EvaluationResult)
      → Result (List (String × EvaluationResult))
  unfolding evaluate_flag set_entry
  evaluate_each at context configs [] results = ok results
  evaluate_each at context configs (key ∷ keys) results = do
    config ← or_raise (lookup key configs) key_error
    result ← evaluate_flag rt config context (at key)
    evaluate_each at context configs keys (set_entry key result results)

  unfoldable pub evaluate_all :
      (String → ℕ)
      → BatchEvaluationRequest
      → Result (List (String × FlagConfiguration)) × Redis
      → Result (List (String × EvaluationResult)) × Redis
  unfolding evaluate_each
  evaluate_all at payload (configs, redis) = (
    (do
      found ← configs
      evaluate_each at (context_of payload.subject_key payload.attributes) found payload.flags []),
    redis,
  )

  unfoldable pub evaluate_batch_in :
      (String → ℕ)
      → Bool
      → (String → Bool)
      → BatchEvaluationRequest
      → Db
      → Redis
      → Result (ℕ × ℕ)
      → Result (List (String × EvaluationResult)) × Redis
  unfolding load_configurations evaluate_all
  evaluate_batch_in at answers written payload db redis (err e) = (err e, redis)
  evaluate_batch_in at answers written payload db redis (ok (project_id, environment_id)) =
      evaluate_all at payload (
        load_configurations rt now ttl project_id environment_id answers written payload.flags db
          redis)

  unfoldable pub evaluate_batch :
      (String → ℕ)
      → Bool
      → (String → Bool)
      → Principal
      → BatchEvaluationRequest
      → Db
      → Redis
      → Result (List (String × EvaluationResult)) × Redis
  unfolding scope evaluate_batch_in
  evaluate_batch at answers written principal payload db redis =
      evaluate_batch_in at answers written payload db redis (scope principal)
