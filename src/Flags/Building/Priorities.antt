-- ===== src/Flags/Building/Priorities.antt =====
-- backend/app/services/flags.py: the priorities of the rules of a configuration that was built.
use cohort_switch.Prelude.{
  ℕ, ◌≡◌, ◌≢◌, refl, sym, ap, ◌∙◌, true, false, List, [], ◌∷◌, map, any, inl, inr, arith, All,
  Bool-cases, ◌==◌,
}
use cohort_switch.Prelude.Reordering.{IsDistinct}
use cohort_switch.Errors.{ok, ok-injective, >>=-eq-ok}
use cohort_switch.Schemas.{RuleInput}
use cohort_switch.Evaluation.Models.{TargetingRule}
use cohort_switch.Flags.Allocations.{rollout_allocations}
use cohort_switch.Flags.Building.{are_distinct, priorities, engine_rule, engine_rules}
use cohort_switch.Flags.Building.Rules.{compiled_rule, require_action-same}

engine_rule-priority :
    (input : RuleInput) {r : TargetingRule} → engine_rule input ≡ ok r → r.priority ≡ input.priority
unfolding engine_rule
engine_rule-priority input h =
    let (rollout, h₁, r₁) = >>=-eq-ok (rollout_allocations input.rollout) _ h in
    ap (λ (r : TargetingRule). r.priority)
      (sym (require_action-same (compiled_rule input rollout) r₁))

engine_rules-priorities :
    (inputs : List RuleInput) {rules : List TargetingRule}
    → engine_rules inputs ≡ ok rules
    → map (λ r. r.priority) rules ≡ priorities inputs
unfolding engine_rules
engine_rules-priorities [] h =
    ap (λ (rs : List TargetingRule). map (λ r. r.priority) rs) (sym (ok-injective h))
engine_rules-priorities (input ∷ inputs) h =
    let (first, h₁, r₁) = >>=-eq-ok (engine_rule input) _ h in
    let (rest, h₂, r₂) = >>=-eq-ok (engine_rules inputs) _ r₁ in
    ap (λ (rs : List TargetingRule). map (λ r. r.priority) rs) (sym (ok-injective r₂))
    ∙ rw (engine_rule-priority input h₁, engine_rules-priorities inputs h₂) refl

not_any :
    (n : ℕ) (rules : List TargetingRule)
    → any (λ y. n == y) (map (λ r. r.priority) rules) ≡ false
    → All (λ r. n ≢ r.priority) rules
not_any n [] h = tt
not_any n (r ∷ rules) h = elim (Bool-cases (n == r.priority)) [
  | inl same ↦ absurd (let h' = rw same at h in cc)
  | inr other ↦ (λ e. absurd (ground (arith, e, other)), not_any n rules (rw other at h))
]

are_distinct-IsDistinct :
    (rules : List TargetingRule)
    → are_distinct (map (λ r. r.priority) rules) ≡ true
    → IsDistinct (λ r. r.priority) rules
unfolding are_distinct
are_distinct-IsDistinct [] h = tt
are_distinct-IsDistinct (r ∷ rules) h =
    elim (Bool-cases (any (λ y. r.priority == y) (map (λ q. q.priority) rules))) [
      | inl twice ↦ absurd (let h' = rw twice at h in cc)
      | inr once ↦ (not_any r.priority rules once, are_distinct-IsDistinct rules (rw once at h))
    ]

-- Rules that were compiled from inputs with distinct priorities have distinct priorities.
pub engine_rules-IsDistinct :
    (inputs : List RuleInput) (rules : List TargetingRule)
    → engine_rules inputs ≡ ok rules
    → are_distinct (priorities inputs) ≡ true
    → IsDistinct (λ r. r.priority) rules
engine_rules-IsDistinct inputs rules e distinct =
    are_distinct-IsDistinct rules (ap are_distinct (engine_rules-priorities inputs e) ∙ distinct)
