-- ===== src/Evaluation/Engine/Totality.antt =====
-- backend/app/evaluation/engine.py: when `evaluate_flag` returns.
use mathlib.Core.Option
use cohort_switch.Prelude.{
  ℕ, ◌<◌, ◌≡◌, true, not, List, inl, inr, arith, elem, keys, Bool-cases, All, All-at, String,
  Option, none, some, is_nonempty, elem→IsIn,
}
use cohort_switch.Prelude.Sort.{sorted, All-sorted}
use cohort_switch.Errors.{ok, ◌>>=◌}
use cohort_switch.Runtime.{Runtime}
use cohort_switch.Evaluation.Hashing.{bucket_count}
use cohort_switch.Evaluation.Hashing.Framing.{stable_bucket-lt}
use cohort_switch.Evaluation.Models.{
  EvaluationContext, RolloutAllocation, ProgressiveStage, TargetingRule, FlagConfiguration,
  EvaluationResult, Reason, is_set, allocation_references, stage_references, flag_disabled,
  targeting_match, percentage_rollout, progressive_rollout, default,
}
use cohort_switch.Evaluation.Models.Soundness.{AllNamed, IsSoundRollout, IsSoundRule, IsSound}
use cohort_switch.Evaluation.Engine.{
  progressive_variation, rollout_variation, result_of, first_match, get_bucket, serve_rule,
  serve_flag, evaluate_flag,
}
use cohort_switch.Evaluation.Engine.Served.{
  IsServed, EndsServed, CanDecide, result_of-served, Serves-named, Satisfies, first_match-total,
  nonempty-ne-nil, bind-served, if-served, direct_named, require_action-rollout,
}
use cohort_switch.Evaluation.Engine.Rollout.{rollout_variation-total}
use cohort_switch.Evaluation.Engine.Progressive.{progressive_variation-Serves}

module _ (rt : Runtime) (c : FlagConfiguration) (context : EvaluationContext) (now : ℕ) {bucket : ℕ}
    (sound : IsSound c) (drawn : get_bucket rt c context ≡ ok bucket) where
  served_stages :
      (stages : List ProgressiveStage) (reason : Reason) (rule : Option String)
      → is_nonempty stages ≡ true
      → AllNamed c.variations (stage_references stages)
      → EndsServed c now (do
        b ← get_bucket rt c context
        variation ← progressive_variation stages b now
        result_of c variation reason rule now)
  served_stages stages reason rule ne named =
      let (v, e, s) = progressive_variation-Serves stages bucket now (nonempty-ne-nil stages ne) in
      bind-served c now (get_bucket rt c context) _ drawn (
        bind-served c now (progressive_variation stages bucket now) _ e (
          result_of-served c v reason rule now sound
            (Serves-named c.variations now bucket stages v named s)))

  bucket-lt : bucket < bucket_count
  unfolding get_bucket
  bucket-lt = stable_bucket-lt rt _ _ _ _ _ _ drawn

  served_rollout :
      (rollout : List RolloutAllocation) (reason : Reason) (rule : Option String)
      → is_nonempty rollout ≡ true
      → IsSoundRollout c.variations rollout
      → EndsServed c now (do
        b ← get_bucket rt c context
        variation ← rollout_variation rollout b
        result_of c variation reason rule now)
  served_rollout rollout reason rule ne h =
      let (v, e, named) =
        rollout_variation-total 0 rollout bucket (h.0 (nonempty-ne-nil rollout ne)) (omega arith)
          bucket-lt in
      bind-served c now (get_bucket rt c context) _ drawn (
        bind-served c now (rollout_variation rollout bucket) _ e (
          result_of-served c v reason rule now sound (
            All-at (λ w. elem w (keys c.variations) ≡ true) v (allocation_references rollout) h.1
              (elem→IsIn v (allocation_references rollout) named))))

  serve_rule-served :
      (r : TargetingRule)
      → IsSoundRule c.variations r
      → EndsServed c now (serve_rule rt c context now r)
  unfolding serve_rule
  serve_rule-served r h = elim (Bool-cases (is_set r.variation)) [
    | inl set ↦ rw set (
        result_of-served c (Option.get_or r.variation "") targeting_match (some r.name) now sound
          (direct_named c.variations r.variation set h.1))
    | inr unset ↦ rw unset (elim (Bool-cases (is_nonempty r.progressive_stages)) [
      | inl staged ↦
          rw staged
            (served_stages r.progressive_stages progressive_rollout (some r.name) staged h.3)
      | inr plain ↦ rw plain (
          served_rollout r.rollout percentage_rollout (some r.name)
            (require_action-rollout r h.0 unset plain) h.2)
    ])
  ]

  serve_flag-served : EndsServed c now (serve_flag rt c context now)
  unfolding serve_flag
  serve_flag-served = elim (Bool-cases (is_nonempty c.progressive_stages)) [
    | inl staged ↦
        rw staged (served_stages c.progressive_stages progressive_rollout none staged sound.stages)
    | inr plain ↦ rw plain (elim (Bool-cases (is_nonempty c.rollout)) [
      | inl e ↦ rw e (served_rollout c.rollout percentage_rollout none e sound.rollout)
      | inr e ↦
          rw e (result_of-served c c.default_variation default none now sound sound.default_named)
    ])
  ]

  served_outcome :
      (o : Option TargetingRule)
      → Satisfies rt context (IsSoundRule c.variations) o
      → EndsServed c now (elim o [
        | some rule ↦ serve_rule rt c context now rule
        | none ↦ serve_flag rt c context now
      ])
  served_outcome (some r) h = serve_rule-served r h
  served_outcome none h = serve_flag-served

  -- For a sound configuration, where no condition of its rules raises for the subject and the bucket
  -- of the subject can be drawn, evaluation returns a result: its
  -- variation is one of the configuration's, with the value that stands there, of the declared type.
  pub evaluate_flag-IsServed :
      All (CanDecide rt context) c.rules
      → (r : EvaluationResult) × (evaluate_flag rt c context now ≡ ok r) × IsServed c now r
  unfolding evaluate_flag
  evaluate_flag-IsServed decide =
      let rules = sorted (λ r. r.priority) c.rules in
      let (o, matched, satisfied) =
        first_match-total rt context (IsSoundRule c.variations) rules
          (All-sorted (λ r. r.priority) (IsSoundRule c.variations) c.rules sound.rules)
          (All-sorted (λ r. r.priority) (CanDecide rt context) c.rules decide) in
      if-served c now (not c.enabled) _ _
        (result_of-served c c.default_variation flag_disabled none now sound sound.default_named)
        (bind-served c now (first_match rt rules context) _ matched (served_outcome o satisfied))
