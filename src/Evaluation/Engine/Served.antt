-- ===== src/Evaluation/Engine/Served.antt =====
-- The steps of an evaluation that end with a result, and what the result has in common with the
-- configuration.
use mathlib.Core.Option
use cohort_switch.Prelude.{
  ℕ, ◌≡◌, refl, sym, subst, ◌≢◌, Bool, true, false, List, [], ◌∷◌, inl, inr, arith, str_eq, elem,
  keys, lookup, lookup_of_elem, if◌then◌else◌, Bool-cases, All, String, Option, none, some,
  is_nonempty, IsIn,
}
use cohort_switch.Errors.{Result, ok, ◌>>=◌}
use cohort_switch.Runtime.{Runtime}
use cohort_switch.Evaluation.Value.{Value}
use cohort_switch.Evaluation.Operators.{condition_matches}
use cohort_switch.Evaluation.Models.{
  EvaluationContext, Condition, ProgressiveStage, TargetingRule, FlagConfiguration,
  EvaluationResult, Reason, has_type, is_set, require_action, stage_references, variation_reference,
}
use cohort_switch.Evaluation.Models.Soundness.{AllNamed, IsSound}
use cohort_switch.Evaluation.Engine.{serve_stage, result_of, conditions_match, first_match}
use cohort_switch.Evaluation.Engine.Progressive.{Serves, current, awaiting}

-- What a result has in common with the configuration that it was computed from.
pub record IsServed (c : FlagConfiguration) (now : ℕ) (r : EvaluationResult) : Type 0 where
  pub flag_key : r.flag_key ≡ c.flag_key
  pub config_version : r.config_version ≡ c.config_version
  pub evaluated_at : r.evaluated_at ≡ now
  pub value : lookup r.variation c.variations ≡ some r.value
  pub typed : has_type c.flag_type r.value ≡ true

abbrev pub EndsServed : FlagConfiguration → ℕ → Result EvaluationResult → Type 0
EndsServed c now outcome = (r : EvaluationResult) × (outcome ≡ ok r) × IsServed c now r

-- No condition of the rules raises in this context.
abbrev pub CanDecide : Runtime → EvaluationContext → TargetingRule → Type 0
CanDecide rt context rule =
    All
      (λ q.
        (b : Bool) × (condition_matches rt q.operator (lookup q.attribute context.attributes)
            q.value
          ≡ ok b))
      rule.conditions

pub typed_lookup :
    (P : Value → Type 0) (k : String) (d : List (String × Value)) (v : Value)
    → All (λ e. P e.1) d
    → lookup k d ≡ some v
    → P v
typed_lookup P k [] v h e = absurd (cc)
typed_lookup P k ((j, w) ∷ d) v h e = elim (Bool-cases (str_eq j k)) [
  | inl here ↦ subst P (let e' : some w ≡ some v = rw here at e in ground arith) h.0
  | inr past ↦ typed_lookup P k d v h.1 (rw past at e)
]

pub result_of-served :
    (c : FlagConfiguration) (v : String) (reason : Reason) (rule : Option String) (now : ℕ)
    → IsSound c
    → elem v (keys c.variations) ≡ true
    → EndsServed c now (result_of c v reason rule now)
unfolding result_of
result_of-served c v reason rule now sound named =
    let (x, found) = lookup_of_elem v c.variations named in
    let outcome : EvaluationResult = record {
      flag_key = c.flag_key;
      value = x;
      variation = v;
      reason = reason;
      matched_rule = rule;
      config_version = c.config_version;
      evaluated_at = now;
    } in
    (
      outcome,
      rw (found, result_of),
      record {
        flag_key = refl;
        config_version = refl;
        evaluated_at = refl;
        value = found;
        typed =
            typed_lookup (λ w. has_type c.flag_type w ≡ true) v c.variations x sound.typed found;
      },
    )

pub stage_named :
    (variations : List (String × Value)) (s : ProgressiveStage) (stages : List ProgressiveStage)
    → AllNamed variations (stage_references stages)
    → IsIn s stages
    → (elem s.variation (keys variations) ≡ true)
      × (elem s.fallback_variation (keys variations) ≡ true)
stage_named variations s [] h i = elim i [ ]
stage_named variations s (t ∷ stages) h (inl e) =
    subst
      (λ u.
        (elem u.variation (keys variations) ≡ true)
        × (elem u.fallback_variation (keys variations) ≡ true))
      (sym e) (h.0, h.1.0)
stage_named variations s (t ∷ stages) h (inr i) = stage_named variations s stages h.1.1 i

pub Serves-named :
    (variations : List (String × Value)) (now bucket : ℕ) (stages : List ProgressiveStage)
    (v : String)
    → AllNamed variations (stage_references stages)
    → Serves now bucket stages v
    → elem v (keys variations) ≡ true
Serves-named variations now bucket stages v h (current s f e) =
    let both = stage_named variations s stages h f.listed in
    rw e (unfold serve_stage in ground (arith, both.0, both.1))
Serves-named variations now bucket stages v h (awaiting s f e) =
    let both = stage_named variations s stages h f.listed in rw e both.1

module _ (rt : Runtime) (context : EvaluationContext) where
  pub conditions_match-total :
      (conditions : List Condition)
      → All
          (λ q.
            (b : Bool) × (condition_matches rt q.operator
                (lookup q.attribute context.attributes)
                q.value
              ≡ ok b))
          conditions
      → (b : Bool) × (conditions_match rt conditions context ≡ ok b)
  unfolding conditions_match
  conditions_match-total [] h = (true, refl)
  conditions_match-total (q ∷ conditions) ((true, e), h) =
      let (b, rest) = conditions_match-total conditions h in (b, rw e rest)
  conditions_match-total (q ∷ conditions) ((false, e), h) = (false, rw e)

  abbrev pub Satisfies : (TargetingRule → Type 0) → Option TargetingRule → Type 0
  Satisfies P none = Unit
  Satisfies P (some r) = P r

  pub first_match-step :
      (P : TargetingRule → Type 0) (r : TargetingRule) (rules : List TargetingRule)
      → (b : Bool) × (conditions_match rt r.conditions context ≡ ok b)
      → P r
      → (o : Option TargetingRule) × (first_match rt rules context ≡ ok o) × Satisfies P o
      → (o : Option TargetingRule) × (first_match rt (r ∷ rules) context ≡ ok o) × Satisfies P o
  unfolding first_match
  first_match-step P r rules (true, e) h rest = (some r, rw e, h)
  first_match-step P r rules (false, e) h rest = (rest.0, rw e rest.1, rest.2)

  pub first_match-total :
      (P : TargetingRule → Type 0) (rules : List TargetingRule)
      → All P rules
      → All (CanDecide rt context) rules
      → (o : Option TargetingRule) × (first_match rt rules context ≡ ok o) × Satisfies P o
  unfolding first_match
  first_match-total P [] h d = (none, refl, tt)
  first_match-total P (r ∷ rules) h d =
      first_match-step P r rules (conditions_match-total r.conditions d.0) h.0
        (first_match-total P rules h.1 d.1)

pub nonempty-ne-nil {ℓ} : {A : Type ℓ} (xs : List A) → is_nonempty xs ≡ true → xs ≢ []
nonempty-ne-nil [] h e = cc
nonempty-ne-nil (x ∷ xs) h e = cc

pub bind-served :
    (c : FlagConfiguration) (now : ℕ) {A : Type 0} (m : Result A) (f : A → Result EvaluationResult)
    {a : A}
    → m ≡ ok a
    → EndsServed c now (f a)
    → EndsServed c now (m >>= f)
bind-served c now m f e h = subst (λ r. EndsServed c now (r >>= f)) (sym e) h

pub if-served :
    (c : FlagConfiguration) (now : ℕ) (b : Bool) (x y : Result EvaluationResult)
    → EndsServed c now x
    → EndsServed c now y
    → EndsServed c now (if b then x else y)
if-served c now true x y hx hy = hx
if-served c now false x y hx hy = hy

-- A text that is set is named where the rule's references are.
pub direct_named :
    (variations : List (String × Value)) (o : Option String)
    → is_set o ≡ true
    → AllNamed variations (variation_reference o)
    → elem (Option.get_or o "") (keys variations) ≡ true
direct_named variations none set h = absurd (cc)
direct_named variations (some v) set h = elim (Bool-cases (str_eq v "")) [
  | inl e ↦ absurd (let set' = rw e at set in cc)
  | inr e ↦ (rw e at h).0
]

-- A rule with no variation of its own and no stages has a rollout.
pub require_action-rollout :
    (r : TargetingRule)
    → require_action r ≡ ok r
    → is_set r.variation ≡ false
    → is_nonempty r.progressive_stages ≡ false
    → is_nonempty r.rollout ≡ true
unfolding require_action
require_action-rollout r h unset none_staged = ground arith
