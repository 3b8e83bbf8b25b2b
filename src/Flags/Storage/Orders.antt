-- ===== src/Flags/Storage/Orders.antt =====
-- backend/app/services/flags.py: rows that a query without an order gives, and what they compile to.
use cohort_switch.Prelude.{
  ℕ, ◌<◌, ◌≡◌, ◌≢◌, refl, sym, ap, ◌∙◌, subst, String, true, false, List, [], ◌∷◌, map, inl, inr,
  arith, All, Bool-cases, leb,
}
use cohort_switch.Prelude.Sort.{sorted, insert}
use cohort_switch.Prelude.Reordering.{
  Reordering, IsDistinct, All-imply, sorted-Reordering, map-Reordering,
}
use cohort_switch.Errors.{ok}
use cohort_switch.Evaluation.Value.{Value}
use cohort_switch.Evaluation.Models.{Condition, RolloutAllocation, ProgressiveStage, TargetingRule}
use cohort_switch.Evaluation.Models.Soundness.{IsSoundRule, IsSoundRollout}
use cohort_switch.Evaluation.Models.Reloading.{require_action-alike}
use cohort_switch.Evaluation.Engine.Rollout.{IsChain}
use cohort_switch.Evaluation.Engine.Reordering.{IsAlike, alike, AreAlike}
use cohort_switch.Database.{RuleCondition, AllocationRow, StageRow, RuleRow}
use cohort_switch.Flags.Storage.{
  db_allocation, db_condition, db_stage, db_rule, condition_of, engine_stage_of, allocations_of,
  rule_of, rules_of,
}
use cohort_switch.Flags.Storage.Parts.{map-map_same, allocations_of-IsSoundRollout}

-- The row of a rule with its children in another order.
pub data IsReloaded (row : RuleRow) : RuleRow → Type 0 where
  reloaded :
      (conditions : List RuleCondition) (rollouts : List AllocationRow) (stages : List StageRow)
      → Reordering row.conditions conditions
      → Reordering row.rollouts rollouts
      → Reordering row.progressive_stages stages
      → IsReloaded row
          (record row { conditions = conditions; rollouts = rollouts; progressive_stages = stages })

abbrev pub AreReloaded : List RuleRow → List RuleRow → Type 0
AreReloaded [] [] = Unit
AreReloaded (r ∷ rows) (q ∷ loaded) = IsReloaded r q × AreReloaded rows loaded
AreReloaded _ _ = ⊥

IsReloaded-priority : (r q : RuleRow) → IsReloaded r q → q.priority ≡ r.priority
IsReloaded-priority r _ (reloaded cs ro ss h k l) = refl

AreReloaded-insert :
    (r q : RuleRow) (rows loaded : List RuleRow)
    → IsReloaded r q
    → AreReloaded rows loaded
    → AreReloaded (insert (λ x. x.priority) r rows) (insert (λ x. x.priority) q loaded)
unfolding insert
AreReloaded-insert r q [] [] a likes = (a, tt)
AreReloaded-insert r q [] (y ∷ ys) a likes = elim likes [ ]
AreReloaded-insert r q (x ∷ xs) [] a likes = elim likes [ ]
AreReloaded-insert r q (x ∷ xs) (y ∷ ys) a likes =
    let e = IsReloaded-priority r q a in
    let f = IsReloaded-priority x y likes.0 in
    elim (Bool-cases (leb r.priority x.priority)) [
      | inl low ↦
          let low' : leb q.priority y.priority ≡ true = rw (e, f) low in rw (low, low') (a, likes)
      | inr high ↦
          let high' : leb q.priority y.priority ≡ false = rw (e, f) high in
          rw (high, high') (likes.0, AreReloaded-insert r q xs ys a likes.1)
    ]

pub AreReloaded-sorted :
    (rows loaded : List RuleRow)
    → AreReloaded rows loaded
    → AreReloaded (sorted (λ x. x.priority) rows) (sorted (λ x. x.priority) loaded)
unfolding sorted
AreReloaded-sorted [] [] likes = tt
AreReloaded-sorted [] (y ∷ ys) likes = elim likes [ ]
AreReloaded-sorted (x ∷ xs) [] likes = elim likes [ ]
AreReloaded-sorted (x ∷ xs) (y ∷ ys) likes =
    AreReloaded-insert x y _ _ likes.0 (AreReloaded-sorted xs ys likes.1)

ends-IsDistinct :
    (lo : ℕ) (rollout : List RolloutAllocation)
    → IsChain lo rollout
    → All (λ a. lo < a.end_bucket) (map db_allocation rollout)
      × IsDistinct (λ a. a.end_bucket) (map db_allocation rollout)
ends-IsDistinct lo [] h = (tt, tt)
ends-IsDistinct lo (a ∷ rollout) h =
    let rest = ends-IsDistinct a.end_bucket rollout h.1 in
    let low : lo < a.end_bucket = h.0 in
    (
      (
        low,
        All-imply (λ x. a.end_bucket < x.end_bucket) (λ x. lo < x.end_bucket) _
            (λ x above. omega arith) rest.0,
      ),
      (
        All-imply (λ x. a.end_bucket < x.end_bucket) (λ x. a.end_bucket ≢ x.end_bucket) _
            (λ x above e. absurd (omega arith)) rest.0,
        rest.1,
      ),
    )

sound_ends :
    (variations : List (String × Value)) (rollout : List RolloutAllocation)
    → IsSoundRollout variations rollout
    → IsDistinct (λ a. a.end_bucket) (map db_allocation rollout)
sound_ends variations [] h = tt
sound_ends variations (a ∷ rollout) h = (ends-IsDistinct 0 (a ∷ rollout) (h.0 (λ e. absurd (cc)))).1

-- The boundaries of a sound rollout compile to it in whatever order they are loaded.
pub allocations_of-Reordering :
    (variations : List (String × Value)) (rollout : List RolloutAllocation)
    (rows : List AllocationRow)
    → IsSoundRollout variations rollout
    → Reordering (map db_allocation rollout) rows
    → allocations_of (sorted (λ item. item.end_bucket) rows) ≡ ok rollout
allocations_of-Reordering variations rollout rows sound r =
    ap allocations_of (
      sym (
        sorted-Reordering (λ item. item.end_bucket) (map db_allocation rollout) rows r
          (sound_ends variations rollout sound)))
    ∙ allocations_of-IsSoundRollout variations rollout sound

pub stages-Reordering :
    (stages : List ProgressiveStage) (rows : List StageRow)
    → Reordering (map db_stage stages) rows
    → Reordering stages (map engine_stage_of rows)
stages-Reordering stages rows r =
    subst (λ s. Reordering s (map engine_stage_of rows))
      (map-map_same db_stage engine_stage_of (λ _. unfold db_stage engine_stage_of in refl) stages)
      (map-Reordering engine_stage_of (map db_stage stages) rows r)

conditions-Reordering :
    (conditions : List Condition) (rows : List RuleCondition)
    → Reordering (map db_condition conditions) rows
    → Reordering conditions (map condition_of rows)
conditions-Reordering conditions rows r =
    subst (λ s. Reordering s (map condition_of rows))
      (map-map_same db_condition condition_of (λ _. refl) conditions)
      (map-Reordering condition_of (map db_condition conditions) rows r)

rule_of-IsReloaded :
    (variations : List (String × Value)) (r : TargetingRule) (row : RuleRow)
    → IsSoundRule variations r
    → IsReloaded (db_rule r) row
    → (q : TargetingRule) × (rule_of row ≡ ok q) × (row.enabled ≡ true) × IsAlike r q
unfolding rule_of db_rule
rule_of-IsReloaded variations r _ h (reloaded cs ro ss hc hr hs) =
    let q : TargetingRule = record r {
      conditions = map condition_of cs;
      progressive_stages = map engine_stage_of ss;
    } in
    let like : IsAlike r q =
      alike (map condition_of cs) (map engine_stage_of ss)
        (conditions-Reordering r.conditions cs hc) (stages-Reordering r.progressive_stages ss hs) in
    (
      q,
      rw (allocations_of-Reordering variations r.rollout ro h.2 hr)
          (require_action-alike r q like h.0),
      refl,
      like,
    )

pub rules_of-AreReloaded :
    (variations : List (String × Value)) (rules : List TargetingRule) (rows : List RuleRow)
    → All (IsSoundRule variations) rules
    → AreReloaded (map db_rule rules) rows
    → (qs : List TargetingRule) × (rules_of rows ≡ ok qs) × AreAlike rules qs
unfolding rules_of
rules_of-AreReloaded variations [] [] h likes = ([], refl, tt)
rules_of-AreReloaded variations [] (y ∷ ys) h likes = elim likes [ ]
rules_of-AreReloaded variations (r ∷ rules) [] h likes = elim likes [ ]
rules_of-AreReloaded variations (r ∷ rules) (y ∷ ys) h likes =
    let (q, first, on, like) = rule_of-IsReloaded variations r y h.0 likes.0 in
    let (qs, rest, likes) = rules_of-AreReloaded variations rules ys h.1 likes.1 in
    (q ∷ qs, rw (on, first, rest) refl, (like, likes))
