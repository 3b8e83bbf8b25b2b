-- ===== src/Flags/Building/Rules.antt =====
-- backend/app/services/flags.py: the rules that `_build_configuration` compiles.
use cohort_switch.Prelude.{
  ℕ, ◌+◌, ◌<◌, ◌≡◌, refl, ap, subst, sym, ◌∙◌, String, not, ◌&&◌, List, [], ◌∷◌, map, arith, All,
  is_nonempty, ◌==◌,
}
use cohort_switch.Errors.{Ensures, Ensures->>=, Ensures-at, Ensures-raise_if, Result, ok, err}
use cohort_switch.Schemas.{RolloutInput, RuleInput}
use cohort_switch.Evaluation.Models.{
  RolloutAllocation, TargetingRule, new_allocation, require_action,
}
use cohort_switch.Evaluation.Models.Soundness.{HasPositiveEnds}
use cohort_switch.Flags.Allocations.{allocate, rollout_allocations}
use cohort_switch.Flags.Allocations.RoundTrip.{invalid_rollout}
use cohort_switch.Flags.Building.{engine_condition, engine_stage, engine_rule, engine_rules}

new_allocation-pos :
    (v : String) (n : ℕ) {a : RolloutAllocation} → new_allocation v n ≡ ok a → 0 < a.end_bucket
unfolding new_allocation
new_allocation-pos v n h = ground arith

allocate-HasPositiveEnds :
    (lo : ℕ) (inputs : List RolloutInput)
    → Ensures (λ (x : List RolloutAllocation × ℕ). HasPositiveEnds x.0) (allocate lo inputs)
unfolding allocate
allocate-HasPositiveEnds lo [] = tt
allocate-HasPositiveEnds lo (item ∷ inputs) =
    let P = λ (x : List RolloutAllocation × ℕ). HasPositiveEnds x.0 in
    let next = lo + item.percentage_basis_points in
    Ensures->>= P (new_allocation item.variation next) _ (λ a e.
      Ensures->>= P (allocate next inputs) _ (λ rest e'. (
        new_allocation-pos item.variation next e,
        Ensures-at P (allocate next inputs) e' (allocate-HasPositiveEnds next inputs),
      )))

pub rollout_allocations-HasPositiveEnds :
    (inputs : List RolloutInput) → Ensures HasPositiveEnds (rollout_allocations inputs)
unfolding rollout_allocations
rollout_allocations-HasPositiveEnds inputs =
    Ensures->>= HasPositiveEnds (allocate 0 inputs) _ (λ r e.
      Ensures-raise_if HasPositiveEnds (is_nonempty r.0 && not (r.1 == 10000)) invalid_rollout
        (ok r.0)
        (λ _.
          Ensures-at (λ (x : List RolloutAllocation × ℕ). HasPositiveEnds x.0) (allocate 0 inputs) e
            (allocate-HasPositiveEnds 0 inputs)))

abbrev pub IsValidRule : TargetingRule → Type 0
IsValidRule r = (require_action r ≡ ok r) × HasPositiveEnds r.rollout

-- `require_action` returns the rule that it is given.
pub require_action-same : (r : TargetingRule) {s : TargetingRule} → require_action r ≡ ok s → r ≡ s
unfolding require_action
require_action-same r h = ground arith

require_action-Ensures :
    (P : TargetingRule → Type 0) (r : TargetingRule)
    → (require_action r ≡ ok r → P r)
    → Ensures P (require_action r)
require_action-Ensures P r h = decide (require_action r) refl
  where
    decide : (outcome : Result TargetingRule) → require_action r ≡ outcome → Ensures P outcome
    decide (err e) eq = tt
    decide (ok s) eq =
        let same = require_action-same r eq in subst P same (h (eq ∙ ap ok (sym same)))

abbrev pub compiled_rule : RuleInput → List RolloutAllocation → TargetingRule
compiled_rule rule rollout = record {
  name = rule.name;
  priority = rule.priority;
  conditions = map engine_condition rule.conditions;
  variation = rule.variation;
  rollout = rollout;
  progressive_stages = map engine_stage rule.progressive_stages;
}

engine_rule-IsValidRule : (rule : RuleInput) → Ensures IsValidRule (engine_rule rule)
unfolding engine_rule
engine_rule-IsValidRule rule =
    Ensures->>= IsValidRule (rollout_allocations rule.rollout) _ (λ rollout e.
      require_action-Ensures IsValidRule (compiled_rule rule rollout) (λ acted. (
        acted,
        Ensures-at HasPositiveEnds (rollout_allocations rule.rollout) e
            (rollout_allocations-HasPositiveEnds rule.rollout),
      )))

pub engine_rules-IsValidRule :
    (rules : List RuleInput) → Ensures (All IsValidRule) (engine_rules rules)
unfolding engine_rules
engine_rules-IsValidRule [] = tt
engine_rules-IsValidRule (r ∷ rules) = Ensures->>= (All IsValidRule) (engine_rule r) _ (λ first e.
    Ensures->>= (All IsValidRule) (engine_rules rules) _ (λ rest e'. (
      Ensures-at IsValidRule (engine_rule r) e (engine_rule-IsValidRule r),
      Ensures-at (All IsValidRule) (engine_rules rules) e' (engine_rules-IsValidRule rules),
    )))
