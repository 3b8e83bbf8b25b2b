-- ===== src/Evaluation/Models/Reloading.antt =====
-- backend/app/evaluation/models.py: the validators, and the order of variations and stages.
use cohort_switch.Prelude.{
  ◌≡◌, refl, sym, ap, ◌∙◌, String, true, List, [], ◌∷◌, all→All, All, All-append, elem, keys,
  str_eq, Bool-cases, inl, inr, arith, ◌||◌, is_nonempty, ◌+◌, ◌==◌,
}
use cohort_switch.Prelude.Reordering.{
  Reordering, done, kept, swapped, chained, All-imply, All-Reordering, is_nonempty-Reordering,
}
use cohort_switch.Errors.{ok}
use cohort_switch.Evaluation.Value.{Value}
use cohort_switch.Evaluation.Models.{
  TargetingRule, ProgressiveStage, FlagConfiguration, FlagType, has_type, allocation_references,
  stage_references, rule_references, variation_references, validate_values, require_action, is_set,
  one_if,
}
use cohort_switch.Evaluation.Models.Soundness.{
  HasPassed, All-append-left, All-append-right, validate_values-All,
}
use cohort_switch.Evaluation.Models.Reordering.{
  All→all, Named, IsValid, All-IsValid, validate_rule_rollouts-ok, Named-rule_references,
}
use cohort_switch.Evaluation.Engine.Reordering.{IsAlike, alike, AreAlike}

elem-keys-Reordering :
    (k : String) (xs ys : List (String × Value))
    → Reordering xs ys
    → elem k (keys xs) ≡ elem k (keys ys)
elem-keys-Reordering k _ _ done = refl
elem-keys-Reordering k _ _ (kept (j, v) {xs} {ys} r) =
    ap (λ b. str_eq j k || b) (elem-keys-Reordering k xs ys r)
elem-keys-Reordering k _ _ (swapped (i, u) (j, v) xs) = ground arith
elem-keys-Reordering k _ _ (chained {xs} {ys} {zs} r r') =
    elem-keys-Reordering k xs ys r ∙ elem-keys-Reordering k ys zs r'

validate_values-ok :
    (t : FlagType) (variations : List (String × Value))
    → All (λ e. has_type t e.1 ≡ true) variations
    → validate_values t variations ≡ ok tt
unfolding validate_values
validate_values-ok t [] h = refl
validate_values-ok t ((k, v) ∷ rest) h = rw (h.0) (validate_values-ok t rest h.1)

module _ (P : String → Type 0) where
  abbrev Both : ProgressiveStage → Type 0
  Both s = P s.variation × P s.fallback_variation

  All-Both : (stages : List ProgressiveStage) → All P (stage_references stages) → All Both stages
  All-Both [] h = tt
  All-Both (s ∷ stages) h = ((h.0, h.1.0), All-Both stages h.1.1)

  All-stage_references :
      (stages : List ProgressiveStage) → All Both stages → All P (stage_references stages)
  All-stage_references [] h = tt
  All-stage_references (s ∷ stages) h = (h.0.0, (h.0.1, All-stage_references stages h.1))

  stage_references-Reordering :
      (xs ys : List ProgressiveStage)
      → Reordering xs ys
      → All P (stage_references xs)
      → All P (stage_references ys)
  stage_references-Reordering xs ys r h =
      All-stage_references ys (All-Reordering Both xs ys r (All-Both xs h))

module _ (old new : List (String × Value)) (same : Reordering old new) where
  Named-Reordering : (names : List String) → Named old names → Named new names
  Named-Reordering names h =
      All-imply (λ v. elem v (keys old) ≡ true) (λ v. elem v (keys new) ≡ true) names
        (λ v named. sym (elem-keys-Reordering v old new same) ∙ named) h

  IsAlike-IsValid : (r q : TargetingRule) → IsAlike r q → IsValid old r → IsValid new q
  IsAlike-IsValid r _ (alike cs ss h k) (valid, direct, allocated, staged) = (
    valid,
    Named-Reordering _ direct,
    Named-Reordering _ allocated,
    Named-Reordering (stage_references ss) (
        stage_references-Reordering (λ v. elem v (keys old) ≡ true) r.progressive_stages ss k
          staged),
  )

  AreAlike-IsValid :
      (rs qs : List TargetingRule) → AreAlike rs qs → All (IsValid old) rs → All (IsValid new) qs
  AreAlike-IsValid [] [] a h = tt
  AreAlike-IsValid [] (q ∷ qs) a h = elim a [ ]
  AreAlike-IsValid (r ∷ rs) [] a h = elim a [ ]
  AreAlike-IsValid (r ∷ rs) (q ∷ qs) a h =
      (IsAlike-IsValid r q a.0 h.0, AreAlike-IsValid rs qs a.1 h.1)

-- The tests that a configuration has passed are passed in another order of its parts.
pub HasPassed-Reordering :
    (c : FlagConfiguration) (variations : List (String × Value)) (rules : List TargetingRule)
    (stages : List ProgressiveStage)
    → Reordering c.variations variations
    → AreAlike c.rules rules
    → Reordering c.progressive_stages stages
    → HasPassed c
    → HasPassed (record c { variations = variations; rules = rules; progressive_stages = stages })
HasPassed-Reordering c variations rules stages same a k p =
    let P = λ (v : String). elem v (keys c.variations) ≡ true in
    let Q = λ (v : String). elem v (keys variations) ≡ true in
    let new = record c { variations = variations; rules = rules; progressive_stages = stages } in
    let named = all→All (λ v. elem v (keys c.variations)) (variation_references c) p.named in
    let later = All-append-right P (allocation_references c.rollout) _ named in
    let over = Named-Reordering c.variations variations same in
    let valid = AreAlike-IsValid c.variations variations same c.rules rules a (
      All-IsValid c.variations c.rules p.rules
        (All-append-left P (rule_references c.rules) _ later)) in
    record {
      default_named =
          sym (elem-keys-Reordering c.default_variation c.variations variations same)
          ∙ p.default_named;
      values = validate_values-ok c.flag_type variations (
          All-Reordering (λ e. has_type c.flag_type e.1 ≡ true) c.variations variations same
            (validate_values-All c.flag_type c.variations p.values));
      named =
          All→all (λ v. elem v (keys variations)) _
            (All-append Q (allocation_references c.rollout) _
              (over _ (All-append-left P (allocation_references c.rollout) _ named))
              (All-append Q (rule_references rules) _ (Named-rule_references variations rules valid)
                (over (stage_references stages) (
                  stage_references-Reordering P c.progressive_stages stages k
                    (All-append-right P (rule_references c.rules) _ later)))));
      rollout = p.rollout;
      rules = validate_rule_rollouts-ok variations rules valid;
    }

-- A rule that has one action has it in another order of its stages.
pub require_action-alike :
    (r q : TargetingRule) → IsAlike r q → require_action r ≡ ok r → require_action q ≡ ok q
unfolding require_action
require_action-alike r _ (alike cs ss h k) e =
    let same = is_nonempty-Reordering r.progressive_stages ss k in
    let one =
      one_if (is_set r.variation)
        + one_if (is_nonempty r.rollout)
        + one_if (is_nonempty r.progressive_stages)
      == 1 in
    rw (sym same) (elim (Bool-cases one) [
      | inl single ↦ rw single refl
      | inr other ↦ absurd (let e' = rw other at e in cc)
    ])
