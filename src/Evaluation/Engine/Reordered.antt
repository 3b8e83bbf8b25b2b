-- ===== src/Evaluation/Engine/Reordered.antt =====
-- backend/app/evaluation/engine.py: `evaluate_flag`, where variations, stages and conditions come in
-- another order.
use cohort_switch.Prelude.{
  ℕ, ◌≡◌, refl, ap, sym, ◌∙◌, String, Option, none, some, true, List, inl, inr, All, Bool-cases,
  is_nonempty,
}
use mathlib.Core.Option
use cohort_switch.Prelude.Sort.{sorted, sorted-IsSorted, sorted_of_IsSorted, All-sorted}
use cohort_switch.Prelude.Reordering.{Reordering, IsDistinct, is_nonempty-Reordering}
use cohort_switch.Errors.{◌>>=◌}
use cohort_switch.Runtime.{Runtime}
use cohort_switch.Evaluation.Value.{Value}
use cohort_switch.Evaluation.Models.{
  ProgressiveStage, TargetingRule, FlagConfiguration, EvaluationContext, Reason, RolloutAllocation,
  flag_disabled, targeting_match, percentage_rollout, progressive_rollout, default, is_set,
}
use cohort_switch.Evaluation.Engine.{
  evaluate_flag, serve_rule, serve_flag, result_of, get_bucket, progressive_variation,
  rollout_variation,
}
use cohort_switch.Evaluation.Engine.Served.{CanDecide}
use cohort_switch.Evaluation.Engine.Progressive.Order.{HaveDistinctTimes}
use cohort_switch.Evaluation.Engine.Reordering.{
  IsAlike, alike, AreAlike, AreAlike-IsSorted, lookup-Reordering, progressive_variation-Reordering,
  >>=-pointwise, AgreeOn, first_match-alike,
}

module _ (rt : Runtime) (context : EvaluationContext) (now : ℕ) (c : FlagConfiguration)
    (variations : List (String × Value)) (rules : List TargetingRule)
    (stages : List ProgressiveStage) (same_variations : Reordering c.variations variations)
    (distinct : IsDistinct (λ (e : String × Value). e.0) c.variations) where
  -- the configuration as it is loaded
  abbrev pub reordered : FlagConfiguration
  reordered = record c { variations = variations; rules = rules; progressive_stages = stages }

  result_of-reordered :
      (v : String) (reason : Reason) (matched : Option String)
      → result_of reordered v reason matched now ≡ result_of c v reason matched now
  unfolding result_of
  result_of-reordered v reason matched =
      rw (lookup-Reordering v c.variations variations same_variations distinct) refl

  staged_reordered :
      (xs ys : List ProgressiveStage) (reason : Reason) (matched : Option String)
      → is_nonempty xs ≡ true
      → Reordering xs ys
      → HaveDistinctTimes xs
      → (get_bucket rt reordered context >>= λ bucket.
          progressive_variation ys bucket now >>= λ v. result_of reordered v reason matched now)
        ≡ (get_bucket rt c context >>= λ bucket.
            progressive_variation xs bucket now >>= λ v. result_of c v reason matched now)
  unfolding get_bucket
  staged_reordered xs ys reason matched staged k times =
      >>=-pointwise (get_bucket rt c context) _ _ (λ bucket.
        ap (λ o. o >>= λ v. result_of reordered v reason matched now)
          (progressive_variation-Reordering xs ys bucket now staged k times)
        ∙ >>=-pointwise (progressive_variation xs bucket now) _ _
            (λ v. result_of-reordered v reason matched))

  rolled_reordered :
      (rollout : List RolloutAllocation) (reason : Reason) (matched : Option String)
      → (get_bucket rt reordered context >>= λ bucket.
          rollout_variation rollout bucket >>= λ v. result_of reordered v reason matched now)
        ≡ (get_bucket rt c context >>= λ bucket.
            rollout_variation rollout bucket >>= λ v. result_of c v reason matched now)
  unfolding get_bucket
  rolled_reordered rollout reason matched = >>=-pointwise (get_bucket rt c context) _ _ (λ bucket.
      >>=-pointwise (rollout_variation rollout bucket) _ _
        (λ v. result_of-reordered v reason matched))

  serve_rule-alike :
      (r q : TargetingRule)
      → IsAlike r q
      → HaveDistinctTimes r.progressive_stages
      → serve_rule rt reordered context now q ≡ serve_rule rt c context now r
  unfolding serve_rule
  serve_rule-alike r _ (alike cs ss h k) times = elim (Bool-cases (is_set r.variation)) [
    | inl set ↦
        rw set (result_of-reordered (Option.get_or r.variation "") targeting_match (some r.name))
    | inr unset ↦ elim (Bool-cases (is_nonempty r.progressive_stages)) [
      | inl staged ↦
          let staged' = sym (is_nonempty-Reordering r.progressive_stages ss k) ∙ staged in
          rw (unset, staged', staged)
            (staged_reordered r.progressive_stages ss progressive_rollout (some r.name) staged k
              times)
      | inr plain ↦
          let plain' = sym (is_nonempty-Reordering r.progressive_stages ss k) ∙ plain in
          rw (unset, plain', plain) (rolled_reordered r.rollout percentage_rollout (some r.name))
    ]
  ]

  serve_flag-reordered :
      Reordering c.progressive_stages stages
      → HaveDistinctTimes c.progressive_stages
      → serve_flag rt reordered context now ≡ serve_flag rt c context now
  unfolding serve_flag
  serve_flag-reordered k times = elim (Bool-cases (is_nonempty c.progressive_stages)) [
    | inl staged ↦
        let staged' = sym (is_nonempty-Reordering c.progressive_stages stages k) ∙ staged in
        rw (staged', staged)
          (staged_reordered c.progressive_stages stages progressive_rollout none staged k times)
    | inr plain ↦
        let plain' = sym (is_nonempty-Reordering c.progressive_stages stages k) ∙ plain in
        rw (plain', plain)
          (elim (Bool-cases (is_nonempty c.rollout)) [
            | inl rolled ↦ rw rolled (rolled_reordered c.rollout percentage_rollout none)
            | inr bare ↦ rw bare (result_of-reordered c.default_variation default none)
          ])
  ]

  -- what follows the loop over the rules
  served_alike :
      (o o' : Option TargetingRule)
      → AgreeOn rt context o o'
      → Reordering c.progressive_stages stages
      → HaveDistinctTimes c.progressive_stages
      → (elim o' [
        | some rule ↦ serve_rule rt reordered context now rule
        | none ↦ serve_flag rt reordered context now
      ])
        ≡ (elim o [
          | some rule ↦ serve_rule rt c context now rule
          | none ↦ serve_flag rt c context now
        ])
  served_alike none none agree k times = serve_flag-reordered k times
  served_alike none (some q) agree k times = elim agree [ ]
  served_alike (some r) none agree k times = elim agree [ ]
  served_alike (some r) (some q) agree k times = serve_rule-alike r q agree.0 agree.1

  -- Evaluation does not see the order, where no condition raises and no two stages of a list start at
  -- one time.
  pub evaluate_flag-reordered :
      AreAlike (sorted (λ r. r.priority) c.rules) rules
      → Reordering c.progressive_stages stages
      → HaveDistinctTimes c.progressive_stages
      → All (λ r. HaveDistinctTimes r.progressive_stages) c.rules
      → All (CanDecide rt context) c.rules
      → evaluate_flag rt reordered context now ≡ evaluate_flag rt c context now
  unfolding evaluate_flag
  evaluate_flag-reordered a k times rule_times decide =
      let by = λ (r : TargetingRule). r.priority in
      let kept_order =
        sorted_of_IsSorted by rules
          (AreAlike-IsSorted (sorted by c.rules) rules a (sorted-IsSorted by c.rules)) in
      let (o, o', f, f', agree) =
        first_match-alike rt context (sorted by c.rules) rules a
          (All-sorted by (λ r. HaveDistinctTimes r.progressive_stages) c.rules rule_times)
          (All-sorted by (CanDecide rt context) c.rules decide) in
      elim (Bool-cases c.enabled) [
        | inl on ↦ rw (on, kept_order, f', f) (served_alike o o' agree k times)
        | inr off ↦ rw off (result_of-reordered c.default_variation flag_disabled none)
      ]
