-- ===== src/Flags/Storage/Parts.antt =====
-- backend/app/services/flags.py: rules, allocations and stages, stored and compiled.
use cohort_switch.Prelude.{
  ℕ, ◌≤◌, ◌≡◌, refl, ◌∙◌, ap, String, List, [], ◌∷◌, map, inl, inr, arith, All, Bool-cases, leb,
}
use cohort_switch.Prelude.Sort.{sorted, insert, IsSorted, All-le_trans, sorted_of_IsSorted}
use cohort_switch.Errors.{Result, ok, ◌>>=◌}
use cohort_switch.Evaluation.Value.{Value}
use cohort_switch.Evaluation.Models.{
  Condition, RolloutAllocation, ProgressiveStage, TargetingRule, new_allocation, require_action,
}
use cohort_switch.Evaluation.Models.Soundness.{IsSoundRule, IsSoundRollout}
use cohort_switch.Evaluation.Engine.Rollout.{IsChain, IsChain-le}
use cohort_switch.Flags.Allocations.Sums.{new_allocation_fits}
use cohort_switch.Flags.Storage.{
  db_allocation, db_condition, db_stage, db_rule, condition_of, engine_stage_of, allocations_of,
  rule_of, rules_of,
}

module _ {ℓ κ} {A : Type ℓ} {B : Type κ} (f : A → B) (key : A → ℕ) (key' : B → ℕ)
    (same : (a : A) → key' (f a) ≡ key a) where
  insert-map : (x : A) (xs : List A) → insert key' (f x) (map f xs) ≡ map f (insert key x xs)
  unfolding insert
  insert-map x [] = refl
  insert-map x (y ∷ ys) = elim (Bool-cases (leb (key x) (key y))) [
    | inl low ↦ rw (same x, same y, low) refl
    | inr high ↦ rw (same x, same y, high) (ap (λ r. f y ∷ r) (insert-map x ys))
  ]

  pub sorted-map : (xs : List A) → sorted key' (map f xs) ≡ map f (sorted key xs)
  unfolding sorted
  sorted-map [] = refl
  sorted-map (x ∷ xs) = ap (insert key' (f x)) (sorted-map xs) ∙ insert-map x (sorted key xs)

pub map-map_same {ℓ κ} :
    {A : Type ℓ} {B : Type κ} (f : A → B) (g : B → A)
    → ((a : A) → g (f a) ≡ a)
    → (xs : List A) → map g (map f xs) ≡ xs
map-map_same f g h [] = refl
map-map_same f g h (x ∷ xs) = rw (h x, map-map_same f g h xs) refl

IsChain-above :
    (lo : ℕ) (rollout : List RolloutAllocation)
    → IsChain lo rollout
    → All (λ a. lo ≤ a.end_bucket) rollout × IsSorted (λ a. a.end_bucket) rollout
IsChain-above lo [] h = (tt, tt)
IsChain-above lo (a ∷ rollout) h =
    let rest = IsChain-above a.end_bucket rollout h.1 in
    let ends = λ (x : RolloutAllocation). x.end_bucket in
    (
      (omega arith, All-le_trans ends lo a.end_bucket rollout (omega arith) rest.0),
      (rest.0, rest.1),
    )

allocations_of-db_allocation :
    (lo : ℕ) (rollout : List RolloutAllocation)
    → IsChain lo rollout
    → allocations_of (map db_allocation rollout) ≡ ok rollout
unfolding allocations_of new_allocation
allocations_of-db_allocation lo [] h = refl
allocations_of-db_allocation lo (a ∷ rollout) h =
    let high = IsChain-le a.end_bucket rollout h.1 in
    let rest = allocations_of-db_allocation a.end_bucket rollout h.1 in
    rw (new_allocation_fits a.variation a.end_bucket (omega arith) high, rest) refl

-- The allocations of a sound rollout, sorted by their boundaries and compiled.
pub allocations_of-IsSoundRollout :
    (variations : List (String × Value)) (rollout : List RolloutAllocation)
    → IsSoundRollout variations rollout
    → allocations_of (sorted (λ item. item.end_bucket) (map db_allocation rollout)) ≡ ok rollout
allocations_of-IsSoundRollout variations [] h = unfold allocations_of sorted in refl
allocations_of-IsSoundRollout variations (a ∷ rollout) h =
    let chain = h.0 (λ e. absurd (cc)) in
    let ends = λ (a : RolloutAllocation). a.end_bucket in
    ap allocations_of (
      sorted-map db_allocation ends (λ item. item.end_bucket) (λ _. refl) (a ∷ rollout)
      ∙ ap (map db_allocation)
          (sorted_of_IsSorted ends (a ∷ rollout) (IsChain-above 0 (a ∷ rollout) chain).1))
    ∙ allocations_of-db_allocation 0 (a ∷ rollout) chain

rule_of-db_rule :
    (variations : List (String × Value)) (r : TargetingRule)
    → IsSoundRule variations r
    → rule_of (db_rule r) ≡ ok r
unfolding rule_of db_rule db_stage engine_stage_of
rule_of-db_rule variations r h =
    let same_conditions = map-map_same db_condition condition_of (λ _. refl) r.conditions in
    let same_stages = map-map_same db_stage engine_stage_of (λ _. refl) r.progressive_stages in
    ap
      (λ q.
        q
        >>= finish (map condition_of (map db_condition r.conditions))
            (map engine_stage_of (map db_stage r.progressive_stages)))
      (allocations_of-IsSoundRollout variations r.rollout h.2)
    ∙ rw (same_conditions, same_stages) h.0
  where
    finish : List Condition → List ProgressiveStage → List RolloutAllocation → Result TargetingRule
    finish conditions stages rollout =
        require_action
          (record r { conditions = conditions; rollout = rollout; progressive_stages = stages })

pub rules_of-db_rule :
    (variations : List (String × Value)) (rules : List TargetingRule)
    → All (IsSoundRule variations) rules
    → rules_of (map db_rule rules) ≡ ok rules
unfolding rules_of db_rule
rules_of-db_rule variations [] h = refl
rules_of-db_rule variations (r ∷ rules) h =
    rw (rule_of-db_rule variations r h.0, rules_of-db_rule variations rules h.1) refl
