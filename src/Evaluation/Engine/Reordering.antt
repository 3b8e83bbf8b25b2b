-- ===== src/Evaluation/Engine/Reordering.antt =====
-- backend/app/evaluation/engine.py: a configuration whose variations, stages and conditions come in
-- another order.
use cohort_switch.Prelude.{
  ℕ, ◌≤◌, ◌≡◌, refl, ap, sym, ◌∙◌, String, Option, none, some, Bool, true, false, List, [], ◌∷◌,
  inl, inr, arith, All, Bool-cases, str_eq, eq_iff, lookup, is_nonempty, if◌then◌else◌, subst,
}
use cohort_switch.Prelude.Sort.{IsSorted}
use cohort_switch.Prelude.Reordering.{
  Reordering, done, kept, swapped, chained, IsDistinct, All-Reordering, mem-Reordering,
  is_nonempty-Reordering, IsDistinct-Reordering,
}
use cohort_switch.Errors.{Result, ok, err, ◌>>=◌}
use cohort_switch.Runtime.{Runtime}
use cohort_switch.Evaluation.Value.{Value}
use cohort_switch.Evaluation.Operators.{condition_matches}
use cohort_switch.Evaluation.Models.{Condition, ProgressiveStage, TargetingRule, EvaluationContext}
use cohort_switch.Evaluation.Engine.{first_match, conditions_match, progressive_variation}
use cohort_switch.Evaluation.Engine.Served.{CanDecide, conditions_match-total, nonempty-ne-nil}
use cohort_switch.Evaluation.Engine.Progressive.Order.{
  HaveDistinctTimes, progressive_variation_order,
}

-- The same rule, with its conditions and its stages in another order.
pub data IsAlike (r : TargetingRule) : TargetingRule → Type 0 where
  alike :
      (conditions : List Condition) (stages : List ProgressiveStage)
      → Reordering r.conditions conditions
      → Reordering r.progressive_stages stages
      → IsAlike r (record r { conditions = conditions; progressive_stages = stages })

abbrev pub AreAlike : List TargetingRule → List TargetingRule → Type 0
AreAlike [] [] = Unit
AreAlike (r ∷ rs) (q ∷ qs) = IsAlike r q × AreAlike rs qs
AreAlike _ _ = ⊥

IsAlike-priority : (r q : TargetingRule) → IsAlike r q → q.priority ≡ r.priority
IsAlike-priority r _ (alike cs ss h k) = refl

AreAlike-above :
    (p : ℕ) (rs qs : List TargetingRule)
    → AreAlike rs qs
    → All (λ r. p ≤ r.priority) rs
    → All (λ q. p ≤ q.priority) qs
AreAlike-above p [] [] a h = tt
AreAlike-above p [] (q ∷ qs) a h = elim a [ ]
AreAlike-above p (r ∷ rs) [] a h = elim a [ ]
AreAlike-above p (r ∷ rs) (q ∷ qs) a h = (
  let e = IsAlike-priority r q a.0 in let le = h.0 in omega arith,
  AreAlike-above p rs qs a.1 h.1,
)

pub AreAlike-IsSorted :
    (rs qs : List TargetingRule)
    → AreAlike rs qs
    → IsSorted (λ r. r.priority) rs
    → IsSorted (λ r. r.priority) qs
AreAlike-IsSorted [] [] a h = tt
AreAlike-IsSorted [] (q ∷ qs) a h = elim a [ ]
AreAlike-IsSorted (r ∷ rs) [] a h = elim a [ ]
AreAlike-IsSorted (r ∷ rs) (q ∷ qs) a h = (
  subst (λ p. All (λ t. p ≤ t.priority) qs) (sym (IsAlike-priority r q a.0))
      (AreAlike-above r.priority rs qs a.1 h.0),
  AreAlike-IsSorted rs qs a.1 h.1,
)

pub lookup-Reordering :
    (k : String) (xs ys : List (String × Value))
    → Reordering xs ys
    → IsDistinct (λ e. e.0) xs
    → lookup k ys ≡ lookup k xs
lookup-Reordering k _ _ done d = refl
lookup-Reordering k _ _ (kept (j, v) {xs} {ys} r) d =
    ap (λ o. if str_eq j k then some v else o) (lookup-Reordering k xs ys r d.1)
lookup-Reordering k _ _ (swapped (i, u) (j, v) xs) d = elim (Bool-cases (str_eq i k)) [
  | inl first ↦ elim (Bool-cases (str_eq j k)) [
    | inl second ↦ absurd (d.0.0 ((eq_iff i k).0 first ∙ sym ((eq_iff j k).0 second)))
    | inr other ↦ rw (first, other) refl
  ]
  | inr later ↦ rw later refl
]
lookup-Reordering k _ _ (chained {xs} {ys} {zs} r r') d =
    lookup-Reordering k ys zs r' (IsDistinct-Reordering (λ e. e.0) xs ys r d)
    ∙ lookup-Reordering k xs ys r d

pub progressive_variation-Reordering :
    (xs ys : List ProgressiveStage) (bucket now : ℕ)
    → is_nonempty xs ≡ true
    → Reordering xs ys
    → HaveDistinctTimes xs
    → progressive_variation ys bucket now ≡ progressive_variation xs bucket now
progressive_variation-Reordering xs ys bucket now some_stage r d = sym (
    progressive_variation_order xs ys bucket now (nonempty-ne-nil xs some_stage)
      (nonempty-ne-nil ys (sym (is_nonempty-Reordering xs ys r) ∙ some_stage)) d
      (mem-Reordering xs ys r))

pub >>=-pointwise :
    {V W : Type 0} (o : Result V) (f g : V → Result W)
    → ((v : V) → f v ≡ g v)
    → (o >>= f) ≡ (o >>= g)
>>=-pointwise (err e) f g h = refl
>>=-pointwise (ok v) f g h = h v

module _ (rt : Runtime) (context : EvaluationContext) where
  abbrev Decides : Condition → Type 0
  Decides q =
      (b : Bool) × (condition_matches rt q.operator (lookup q.attribute context.attributes) q.value
        ≡ ok b)

  conditions_match-Reordering :
      (xs ys : List Condition)
      → Reordering xs ys
      → All Decides xs
      → conditions_match rt ys context ≡ conditions_match rt xs context
  unfolding conditions_match
  conditions_match-Reordering _ _ done h = refl
  conditions_match-Reordering _ _ (kept x {xs} {ys} r) h =
      >>=-pointwise
        (condition_matches rt x.operator (lookup x.attribute context.attributes) x.value) _ _
        (λ matched.
          ap (λ o. if matched then o else ok false) (conditions_match-Reordering xs ys r h.1))
  conditions_match-Reordering _ _ (swapped x y xs) ((true, e), ((true, f), h)) = rw (e, f) refl
  conditions_match-Reordering _ _ (swapped x y xs) ((true, e), ((false, f), h)) = rw (e, f) refl
  conditions_match-Reordering _ _ (swapped x y xs) ((false, e), ((true, f), h)) = rw (e, f) refl
  conditions_match-Reordering _ _ (swapped x y xs) ((false, e), ((false, f), h)) = rw (e, f) refl
  conditions_match-Reordering _ _ (chained {xs} {ys} {zs} r r') h =
      conditions_match-Reordering ys zs r' (All-Reordering Decides xs ys r h)
      ∙ conditions_match-Reordering xs ys r h

  -- two outcomes of the loop over the rules: no rule, or rules that are alike
  abbrev pub AgreeOn : Option TargetingRule → Option TargetingRule → Type 0
  AgreeOn none none = Unit
  AgreeOn (some r) (some q) = IsAlike r q × HaveDistinctTimes r.progressive_stages
  AgreeOn _ _ = ⊥

  IsAlike-conditions_match :
      (r q : TargetingRule)
      → IsAlike r q
      → CanDecide rt context r
      → conditions_match rt q.conditions context ≡ conditions_match rt r.conditions context
  IsAlike-conditions_match r _ (alike cs ss h k) decide =
      conditions_match-Reordering r.conditions cs h decide

  first_match-alike_step :
      (r q : TargetingRule) (rs qs : List TargetingRule) (b : Bool)
      → conditions_match rt r.conditions context ≡ ok b
      → conditions_match rt q.conditions context ≡ ok b
      → IsAlike r q × HaveDistinctTimes r.progressive_stages
      → (o : Option TargetingRule) × (o' : Option TargetingRule) × (first_match rt rs context
          ≡ ok o)
        × (first_match rt qs context ≡ ok o')
        × AgreeOn o o'
      → (o : Option TargetingRule) × (o' : Option TargetingRule) × (first_match rt (r ∷ rs) context
          ≡ ok o)
        × (first_match rt (q ∷ qs) context ≡ ok o')
        × AgreeOn o o'
  unfolding first_match
  first_match-alike_step r q rs qs true e e' both rest =
      (some r, some q, rw e refl, rw e' refl, both)
  first_match-alike_step r q rs qs false e e' both (o, o', f, f', agree) =
      (o, o', rw e f, rw e' f', agree)

  pub first_match-alike :
      (rs qs : List TargetingRule)
      → AreAlike rs qs
      → All (λ r. HaveDistinctTimes r.progressive_stages) rs
      → All (CanDecide rt context) rs
      → (o : Option TargetingRule) × (o' : Option TargetingRule) × (first_match rt rs context
          ≡ ok o)
        × (first_match rt qs context ≡ ok o')
        × AgreeOn o o'
  unfolding first_match
  first_match-alike [] [] a d decide = (none, none, refl, refl, tt)
  first_match-alike [] (q ∷ qs) a d decide = elim a [ ]
  first_match-alike (r ∷ rs) [] a d decide = elim a [ ]
  first_match-alike (r ∷ rs) (q ∷ qs) a d decide =
      let (b, e) = conditions_match-total rt context r.conditions decide.0 in
      let e' = IsAlike-conditions_match r q a.0 decide.0 ∙ e in
      first_match-alike_step r q rs qs b e e' (a.0, d.0) (first_match-alike rs qs a.1 d.1 decide.1)
