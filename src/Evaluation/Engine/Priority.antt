-- ===== src/Evaluation/Engine/Priority.antt =====
-- backend/app/evaluation/engine.py: the branches of `evaluate_flag`.
use cohort_switch.Prelude.{
  ℕ, ◌≤◌, ◌≡◌, refl, sym, subst, Bool, true, false, List, [], ◌∷◌, inl, inr, arith, All, All-at,
  IsIn, Option, none, some, Bool-cases, if◌then◌else◌,
}
use cohort_switch.Prelude.Sort.{sorted, IsSorted, sorted-IsSorted, mem-sorted}
use cohort_switch.Errors.{Result, ok, >>=-eq-ok}
use cohort_switch.Runtime.{Runtime}
use cohort_switch.Evaluation.Models.{
  EvaluationContext, TargetingRule, FlagConfiguration, EvaluationResult, flag_disabled,
}
use cohort_switch.Evaluation.Engine.{
  result_of, conditions_match, first_match, serve_rule, serve_flag, evaluate_flag,
}

module _ (rt : Runtime) (context : EvaluationContext) where
  abbrev pub Matches : TargetingRule → Type 0
  Matches r = conditions_match rt r.conditions context ≡ ok true

  abbrev pub Fails : TargetingRule → Type 0
  Fails r = conditions_match rt r.conditions context ≡ ok false

  -- `r` matches, and no matching rule has a smaller priority.
  pub record IsFirst (rules : List TargetingRule) (r : TargetingRule) : Type 0 where
    pub listed : IsIn r rules
    pub matches : Matches r
    pub least : (q : TargetingRule) → IsIn q rules → Matches q → r.priority ≤ q.priority

  -- How an evaluation is decided.
  pub data Decision (c : FlagConfiguration) (now : ℕ) (outcome : Result EvaluationResult)
      : Type 0 where
    killed :
        c.enabled ≡ false
        → outcome ≡ result_of c c.default_variation flag_disabled none now
        → Decision c now outcome
    targeted :
        c.enabled ≡ true
        → (r : TargetingRule) → IsFirst c.rules r
        → outcome ≡ serve_rule rt c context now r
        → Decision c now outcome
    untargeted :
        c.enabled ≡ true
        → ((q : TargetingRule) → IsIn q c.rules → Fails q)
        → outcome ≡ serve_flag rt c context now
        → Decision c now outcome

  abbrev Found : List TargetingRule → Option TargetingRule → Type 0
  Found rules none = (q : TargetingRule) → IsIn q rules → Fails q
  Found rules (some r) = IsFirst rules r

  IsFirst-here :
      (r : TargetingRule) (rules : List TargetingRule)
      → All (λ q. r.priority ≤ q.priority) rules
      → Matches r
      → IsFirst (r ∷ rules) r
  IsFirst-here r rules low m = record {
    listed = inl refl;
    matches = m;
    least = λ q i _. elim i [
      | inl e ↦ rw e (omega arith)
      | inr j ↦ All-at (λ t. r.priority ≤ t.priority) q rules low j
    ];
  }

  Found-later :
      (r : TargetingRule) (rules : List TargetingRule) (o : Option TargetingRule)
      → Fails r
      → Found rules o
      → Found (r ∷ rules) o
  Found-later r rules none f h = λ q i. elim i [ inl e ↦ subst Fails (sym e) f | inr j ↦ h q j ]
  Found-later r rules (some t) f h = record {
    listed = inr h.listed;
    matches = h.matches;
    least = λ q i m. elim i [
      | inl e ↦ absurd (let m' = subst Matches e m in cc)
      | inr j ↦ h.least q j m
    ];
  }

  first_match-Found :
      (rules : List TargetingRule) (o : Option TargetingRule)
      → IsSorted (λ r. r.priority) rules
      → first_match rt rules context ≡ ok o
      → Found rules o
  unfolding first_match
  first_match-Found [] o s h = let e : none ≡ o = cc in subst (Found []) e (λ q i. elim i [ ])
  first_match-Found (r ∷ rules) o s h =
      let (b, e, h') = >>=-eq-ok (conditions_match rt r.conditions context) _ h in
      decide b e h' (first_match-Found rules o s.1)
    where
      decide :
          (b : Bool)
          → conditions_match rt r.conditions context ≡ ok b
          → (if b then ok (some r) else first_match rt rules context) ≡ ok o
          → (first_match rt rules context ≡ ok o → Found rules o)
          → Found (r ∷ rules) o
      decide true e k ih =
          let same : some r ≡ o = cc in subst (Found (r ∷ rules)) same (IsFirst-here r rules s.0 e)
      decide false e k ih = Found-later r rules o e (ih k)

  Found-sorted :
      (rules : List TargetingRule) (o : Option TargetingRule)
      → Found (sorted (λ r. r.priority) rules) o
      → Found rules o
  Found-sorted rules none h =
      λ q i. h q ((mem-sorted (λ (r : TargetingRule). r.priority) q rules).1 i)
  Found-sorted rules (some r) h = record {
    listed = (mem-sorted (λ (t : TargetingRule). t.priority) r rules).0 h.listed;
    matches = h.matches;
    least = λ q i. h.least q ((mem-sorted (λ (t : TargetingRule). t.priority) q rules).1 i);
  }

  Decision-of_match :
      (c : FlagConfiguration) (now : ℕ) (o : Option TargetingRule) (r : EvaluationResult)
      → c.enabled ≡ true
      → Found c.rules o
      → elim o [ some rule ↦ serve_rule rt c context now rule | none ↦ serve_flag rt c context now ]
        ≡ ok r
      → Decision c now (ok r)
  Decision-of_match c now none r on h e = untargeted on h (sym e)
  Decision-of_match c now (some t) r on h e = targeted on t h (sym e)

  -- An evaluation that returns was decided by the kill switch, by a matching rule that no matching
  -- rule precedes in priority, or by the flag where every rule fails.
  pub evaluate_flag-Decision :
      (c : FlagConfiguration) (now : ℕ) (r : EvaluationResult)
      → evaluate_flag rt c context now ≡ ok r
      → Decision c now (ok r)
  unfolding evaluate_flag
  evaluate_flag-Decision c now r h = elim (Bool-cases c.enabled) [
    | inl on ↦
        let rules = sorted (λ t. t.priority) c.rules in
        let h' = simp on at h in
        let (o, matched, served) = >>=-eq-ok (first_match rt rules context) _ h' in
        Decision-of_match c now o r on
          (Found-sorted c.rules o (
            first_match-Found rules o (sorted-IsSorted (λ (t : TargetingRule). t.priority) c.rules)
              matched))
          served
    | inr off ↦ killed off (sym (simp off at h))
  ]
