-- ===== src/Evaluation/Models/Reordering.antt =====
-- backend/app/evaluation/models.py: the validators, and the order of the rules.
use cohort_switch.Prelude.{
  ◌≡◌, refl, String, Bool, true, List, [], ◌∷◌, ◌++◌, all, all→All, All, All-append, elem, keys,
}
use cohort_switch.Prelude.Sort.{sorted, All-sorted}
use cohort_switch.Errors.{ok}
use cohort_switch.Evaluation.Value.{Value}
use cohort_switch.Evaluation.Models.{
  TargetingRule, FlagConfiguration, allocation_references, stage_references, variation_reference,
  rule_references, variation_references, validate_rollout, validate_rule_rollouts,
  validate_configuration,
}
use cohort_switch.Evaluation.Models.Soundness.{
  HasPassed, All-append-left, All-append-right, validate_rule_rollouts-cons,
}

abbrev pub by_priority : FlagConfiguration → FlagConfiguration
by_priority c = record c { rules = sorted (λ r. r.priority) c.rules }

pub All→all {ℓ} :
    {A : Type ℓ} (p : A → Bool) (xs : List A) → All (λ x. p x ≡ true) xs → all p xs ≡ true
All→all p [] h = refl
All→all p (x ∷ xs) h = rw (h.0) (All→all p xs h.1)

-- Tests that are passed are passed again.
pub validate_configuration-ok :
    (c : FlagConfiguration) → HasPassed c → validate_configuration c ≡ ok c
unfolding validate_configuration
validate_configuration-ok c p = rw (p.default_named, p.values, p.named, p.rollout, p.rules) refl

module _ (variations : List (String × Value)) where
  abbrev pub Named : List String → Type 0
  Named = All (λ v. elem v (keys variations) ≡ true)

  abbrev rule_texts : TargetingRule → List String
  rule_texts r =
      variation_reference r.variation
      ++ (allocation_references r.rollout ++ stage_references r.progressive_stages)

  abbrev pub IsValid : TargetingRule → Type 0
  IsValid r =
      (validate_rollout r.rollout ≡ ok tt)
      × Named (variation_reference r.variation)
      × Named (allocation_references r.rollout)
      × Named (stage_references r.progressive_stages)

  pub All-IsValid :
      (rules : List TargetingRule)
      → validate_rule_rollouts rules ≡ ok tt
      → Named (rule_references rules)
      → All IsValid rules
  All-IsValid [] valid named = tt
  All-IsValid (r ∷ rules) valid named =
      let P = λ (v : String). elem v (keys variations) ≡ true in
      let split = validate_rule_rollouts-cons r rules valid in
      let direct = variation_reference r.variation in
      let tail₁ = All-append-right P direct _ named in
      let tail₂ = All-append-right P (allocation_references r.rollout) _ tail₁ in
      (
        (
          split.0,
          All-append-left P direct _ named,
          All-append-left P (allocation_references r.rollout) _ tail₁,
          All-append-left P (stage_references r.progressive_stages) _ tail₂,
        ),
        All-IsValid rules split.1
            (All-append-right P (stage_references r.progressive_stages) _ tail₂),
      )

  pub validate_rule_rollouts-ok :
      (rules : List TargetingRule) → All IsValid rules → validate_rule_rollouts rules ≡ ok tt
  unfolding validate_rule_rollouts
  validate_rule_rollouts-ok [] h = refl
  validate_rule_rollouts-ok (r ∷ rules) h = rw (h.0.0) (validate_rule_rollouts-ok rules h.1)

  pub Named-rule_references :
      (rules : List TargetingRule) → All IsValid rules → Named (rule_references rules)
  Named-rule_references [] h = tt
  Named-rule_references (r ∷ rules) h =
      let P = λ (v : String). elem v (keys variations) ≡ true in
      let (valid, direct, allocated, staged) = h.0 in
      All-append P (variation_reference r.variation) _ direct (
        All-append P (allocation_references r.rollout) _ allocated (
          All-append P (stage_references r.progressive_stages) _ staged
            (Named-rule_references rules h.1)))

-- Sorting the rules by priority keeps the tests passed.
pub HasPassed-by_priority : (c : FlagConfiguration) → HasPassed c → HasPassed (by_priority c)
HasPassed-by_priority c p =
    let P = λ (v : String). elem v (keys c.variations) ≡ true in
    let named = all→All (λ v. elem v (keys c.variations)) (variation_references c) p.named in
    let later = All-append-right P (allocation_references c.rollout) _ named in
    let valid =
      All-sorted (λ r. r.priority) (IsValid c.variations) c.rules
        (All-IsValid c.variations c.rules p.rules
          (All-append-left P (rule_references c.rules) _ later)) in
    let rules = sorted (λ (r : TargetingRule). r.priority) c.rules in
    record {
      default_named = p.default_named;
      values = p.values;
      named =
          All→all (λ v. elem v (keys c.variations)) (variation_references (by_priority c))
            (All-append P (allocation_references c.rollout) _
              (All-append-left P (allocation_references c.rollout) _ named)
              (All-append P (rule_references rules) _
                (Named-rule_references c.variations rules valid)
                (All-append-right P (rule_references c.rules) _ later)));
      rollout = p.rollout;
      rules = validate_rule_rollouts-ok c.variations rules valid;
    }
