-- ===== src/Evaluation/Models/Soundness.antt =====
-- backend/app/evaluation/models.py: the validators of a configuration, and what a sound one is.
use cohort_switch.Prelude.{
  ◌<◌, ◌≡◌, refl, ◌≢◌, Bool, true, false, not, List, [], ◌∷◌, ◌++◌, inl, inr, elem, keys, all,
  all→All, Bool-cases, All, String,
}
use cohort_switch.Errors.{ok, raise_if, value_error, >>=-eq-ok, raise_if-eq-ok}
use cohort_switch.Evaluation.Value.{Value}
use cohort_switch.Evaluation.Models.{
  RolloutAllocation, TargetingRule, FlagConfiguration, FlagType, require_action, validate_rollout,
  validate_rule_rollouts, validate_values, validate_configuration, has_type, allocation_references,
  stage_references, variation_reference, rule_references, variation_references,
}
use cohort_switch.Evaluation.Engine.Rollout.{IsChain, validate_rollout-IsChain}

-- Every text is the key of a variation.
abbrev pub AllNamed : List (String × Value) → List String → Type 0
AllNamed variations = All (λ v. elem v (keys variations) ≡ true)

abbrev pub HasPositiveEnds : List RolloutAllocation → Type 0
HasPositiveEnds = All (λ a. 0 < a.end_bucket)

abbrev pub IsSoundRollout : List (String × Value) → List RolloutAllocation → Type 0
IsSoundRollout variations rollout =
    (rollout ≢ [] → IsChain 0 rollout) × AllNamed variations (allocation_references rollout)

abbrev pub IsSoundRule : List (String × Value) → TargetingRule → Type 0
IsSoundRule variations r =
    (require_action r ≡ ok r)
    × AllNamed variations (variation_reference r.variation)
    × IsSoundRollout variations r.rollout
    × AllNamed variations (stage_references r.progressive_stages)

-- What evaluation relies on.
pub record IsSound (c : FlagConfiguration) : Type 0 where
  pub default_named : elem c.default_variation (keys c.variations) ≡ true
  pub typed : All (λ e. has_type c.flag_type e.1 ≡ true) c.variations
  pub rules : All (λ r. IsSoundRule c.variations r) c.rules
  pub rollout : IsSoundRollout c.variations c.rollout
  pub stages : AllNamed c.variations (stage_references c.progressive_stages)

-- What the constructors of the parts have checked: each rule has one action, each boundary is positive.
pub record HasValidParts (c : FlagConfiguration) : Type 0 where
  pub rules : All (λ r. (require_action r ≡ ok r) × HasPositiveEnds r.rollout) c.rules
  pub rollout : HasPositiveEnds c.rollout

module _ {ℓ κ} {A : Type ℓ} (P : A → Type κ) where
  pub All-append-left : (xs ys : List A) → All P (xs ++ ys) → All P xs
  All-append-left [] ys h = tt
  All-append-left (x ∷ xs) ys h = (h.0, All-append-left xs ys h.1)

  pub All-append-right : (xs ys : List A) → All P (xs ++ ys) → All P ys
  All-append-right [] ys h = h
  All-append-right (x ∷ xs) ys h = All-append-right xs ys h.1

pub validate_values-All :
    (t : FlagType) (variations : List (String × Value))
    → validate_values t variations ≡ ok tt
    → All (λ e. has_type t e.1 ≡ true) variations
unfolding validate_values
validate_values-All t [] h = tt
validate_values-All t ((k, v) ∷ rest) h = elim (Bool-cases (has_type t v)) [
  | inl fits ↦ (fits, validate_values-All t rest (rw fits at h))
  | inr bad ↦ absurd (let h' = rw bad at h in cc)
]

pub validate_rule_rollouts-cons :
    (r : TargetingRule) (rules : List TargetingRule)
    → validate_rule_rollouts (r ∷ rules) ≡ ok tt
    → (validate_rollout r.rollout ≡ ok tt) × (validate_rule_rollouts rules ≡ ok tt)
unfolding validate_rule_rollouts
validate_rule_rollouts-cons r rules h =
    let (u, valid, rest) = >>=-eq-ok (validate_rollout r.rollout) _ h in (valid, rest)

module _ (variations : List (String × Value)) where
  sound_rollout :
      (rollout : List RolloutAllocation)
      → HasPositiveEnds rollout
      → validate_rollout rollout ≡ ok tt
      → AllNamed variations (allocation_references rollout)
      → IsSoundRollout variations rollout
  sound_rollout rollout pos valid named =
      ((λ ne. validate_rollout-IsChain rollout ne pos valid), named)

  sound_rules :
      (rules : List TargetingRule)
      → All (λ r. (require_action r ≡ ok r) × HasPositiveEnds r.rollout) rules
      → validate_rule_rollouts rules ≡ ok tt
      → AllNamed variations (rule_references rules)
      → All (λ r. IsSoundRule variations r) rules
  sound_rules [] parts valid named = tt
  sound_rules (r ∷ rules) parts valid named =
      let P = λ (v : String). elem v (keys variations) ≡ true in
      let direct = variation_reference r.variation in
      let split = validate_rule_rollouts-cons r rules valid in
      let tail₁ = All-append-right P direct _ named in
      let tail₂ = All-append-right P (allocation_references r.rollout) _ tail₁ in
      (
        (
          parts.0.0,
          All-append-left P direct _ named,
          sound_rollout r.rollout parts.0.1 split.0
              (All-append-left P (allocation_references r.rollout) _ tail₁),
          All-append-left P (stage_references r.progressive_stages) _ tail₂,
        ),
        sound_rules rules parts.1 split.1
            (All-append-right P (stage_references r.progressive_stages) _ tail₂),
      )

pub of_not-false : (b : Bool) → not b ≡ false → b ≡ true
of_not-false true h = refl
of_not-false false h = absurd (cc)

-- The tests that a configuration has passed.
pub record HasPassed (c : FlagConfiguration) : Type 0 where
  pub default_named : elem c.default_variation (keys c.variations) ≡ true
  pub values : validate_values c.flag_type c.variations ≡ ok tt
  pub named : all (λ v. elem v (keys c.variations)) (variation_references c) ≡ true
  pub rollout : validate_rollout c.rollout ≡ ok tt
  pub rules : validate_rule_rollouts c.rules ≡ ok tt

pub validate_configuration-HasPassed :
    (c : FlagConfiguration) {d : FlagConfiguration} → validate_configuration c ≡ ok d → HasPassed c
unfolding validate_configuration
validate_configuration-HasPassed c h =
    let named = elem c.default_variation (keys c.variations) in
    let covered = all (λ v. elem v (keys c.variations)) (variation_references c) in
    let (u₁, h₁, r₁) = >>=-eq-ok (raise_if (not named) value_error) _ h in
    let (u₂, h₂, r₂) = >>=-eq-ok (validate_values c.flag_type c.variations) _ r₁ in
    let (u₃, h₃, r₃) = >>=-eq-ok (raise_if (not covered) value_error) _ r₂ in
    let (u₄, h₄, r₄) = >>=-eq-ok (validate_rollout c.rollout) _ r₃ in
    let (u₅, h₅, r₅) = >>=-eq-ok (validate_rule_rollouts c.rules) _ r₄ in
    record {
      default_named = of_not-false named (raise_if-eq-ok (not named) value_error h₁);
      values = h₂;
      named = of_not-false covered (raise_if-eq-ok (not covered) value_error h₃);
      rollout = h₄;
      rules = h₅;
    }

-- A configuration whose parts are valid, and that the validators accept, is sound.
pub validate_configuration-IsSound :
    (c : FlagConfiguration) {d : FlagConfiguration}
    → HasValidParts c
    → validate_configuration c ≡ ok d
    → IsSound c
validate_configuration-IsSound c parts h =
    let passed = validate_configuration-HasPassed c h in
    let P = λ (v : String). elem v (keys c.variations) ≡ true in
    let named = all→All (λ v. elem v (keys c.variations)) (variation_references c) passed.named in
    let later = All-append-right P (allocation_references c.rollout) _ named in
    record {
      default_named = passed.default_named;
      typed = validate_values-All c.flag_type c.variations passed.values;
      rules =
          sound_rules c.variations c.rules parts.rules passed.rules
            (All-append-left P (rule_references c.rules) _ later);
      rollout =
          sound_rollout c.variations c.rollout parts.rollout passed.rollout
            (All-append-left P (allocation_references c.rollout) _ named);
      stages = All-append-right P (rule_references c.rules) _ later;
    }
