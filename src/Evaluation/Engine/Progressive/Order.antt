-- ===== src/Evaluation/Engine/Progressive/Order.antt =====
-- backend/app/evaluation/engine.py: `_progressive_variation`, and the order of the stages.
use native.Mathlib.Nat.{le_antisymm}
use cohort_switch.Prelude.{
  ℕ, All, Bool-cases, ltb, leb, leb→le, refl, ◌++◌, ◌<◌, true, false, inl, inr, ◌≤◌, ◌≡◌, ap, sym,
  ◌∙◌, ◌≢◌, ◌↔◌, List, [], ◌∷◌, arith, IsIn, String,
}
use cohort_switch.Errors.{ok}
use cohort_switch.Evaluation.Models.{ProgressiveStage}
use cohort_switch.Evaluation.Engine.Progressive.{
  Serves, current, awaiting, latest-cons, progressive_variation-Serves,
}
use cohort_switch.Evaluation.Engine.{
  active_stages, latest, progressive_choice, serve_stage, progressive_variation,
}

-- No two stages start at one time.
abbrev pub HaveDistinctTimes : List ProgressiveStage → Type 0
HaveDistinctTimes stages =
    (s t : ProgressiveStage) → IsIn s stages → IsIn t stages → s.activate_at ≡ t.activate_at → s ≡ t

abbrev pub HaveSameStages : List ProgressiveStage → List ProgressiveStage → Type 0
HaveSameStages xs ys = (s : ProgressiveStage) → IsIn s xs ↔ IsIn s ys

Serves-unique :
    (now bucket : ℕ) (xs ys : List ProgressiveStage) (v w : String)
    → HaveDistinctTimes xs
    → HaveSameStages xs ys
    → Serves now bucket xs v
    → Serves now bucket ys w
    → v ≡ w
Serves-unique now bucket xs ys v w d same (current s f e) (current t g e') =
    let there = (same t).1 g.listed in
    let one : s ≡ t =
      d s t f.listed there
        (le_antisymm (g.newest s ((same s).0 f.listed) f.active) (f.newest t there g.active)) in
    e ∙ ap (λ u. serve_stage u bucket) one ∙ sym e'
Serves-unique now bucket xs ys v w d same (current s f e) (awaiting t g e') =
    absurd (let h = g.pending s ((same s).0 f.listed) in let k = f.active in omega arith)
Serves-unique now bucket xs ys v w d same (awaiting s f e) (current t g e') =
    absurd (let h = f.pending t ((same t).1 g.listed) in let k = g.active in omega arith)
Serves-unique now bucket xs ys v w d same (awaiting s f e) (awaiting t g e') =
    let there = (same t).1 g.listed in
    let one : s ≡ t =
      d s t f.listed there (le_antisymm (f.first t there) (g.first s ((same s).0 f.listed))) in
    e ∙ ap (λ (u : ProgressiveStage). u.fallback_variation) one ∙ sym e'

-- Stages with distinct times serve one variation, whatever their order.
pub progressive_variation_order :
    (xs ys : List ProgressiveStage) (bucket now : ℕ)
    → xs ≢ []
    → ys ≢ []
    → HaveDistinctTimes xs
    → HaveSameStages xs ys
    → progressive_variation xs bucket now ≡ progressive_variation ys bucket now
progressive_variation_order xs ys bucket now nx ny d same =
    let (v, ev, sv) = progressive_variation-Serves xs bucket now nx in
    let (w, ew, sw) = progressive_variation-Serves ys bucket now ny in
    ev ∙ ap ok (Serves-unique now bucket xs ys v w d same sv sw) ∙ sym ew

latest-kept :
    (s : ProgressiveStage) (after : List ProgressiveStage)
    → All (λ t. t.activate_at ≤ s.activate_at) after
    → latest s after ≡ s
unfolding latest
latest-kept s [] low = refl
latest-kept s (t ∷ after) low =
    let stays : ltb s.activate_at t.activate_at ≡ false = let h = low.0 in ground arith in
    rw stays (latest-kept s after low.1)

latest-reached :
    (best s : ProgressiveStage) (before after : List ProgressiveStage)
    → best.activate_at < s.activate_at
    → All (λ t. t.activate_at < s.activate_at) before
    → All (λ t. t.activate_at ≤ s.activate_at) after
    → latest best (before ++ s ∷ after) ≡ s
latest-reached best s [] after earlier before_it low = elim (latest-cons best s after) [
  | inl (e, moved) ↦ e ∙ latest-kept s after low
  | inr (e, stayed) ↦ absurd (omega arith)
]
latest-reached best s (t ∷ before) after earlier before_it low =
    elim (latest-cons best t (before ++ s ∷ after)) [
      | inl (e, moved) ↦ e ∙ latest-reached t s before after before_it.0 before_it.1 low
      | inr (e, stayed) ↦ e ∙ latest-reached best s before after earlier before_it.1 low
    ]

active_stages-append :
    (now : ℕ) (xs ys : List ProgressiveStage)
    → active_stages now (xs ++ ys) ≡ active_stages now xs ++ active_stages now ys
unfolding active_stages
active_stages-append now [] ys = refl
active_stages-append now (x ∷ xs) ys = elim (Bool-cases (leb x.activate_at now)) [
  | inl due ↦ rw due (ap (λ l. x ∷ l) (active_stages-append now xs ys))
  | inr later ↦ rw later (active_stages-append now xs ys)
]

-- a bound of the active stages, from one of the stages that asks no more of those that are not active
All-active_stages :
    (P : ProgressiveStage → Type 0) (now : ℕ) (stages : List ProgressiveStage)
    → All (λ t. t.activate_at ≤ now → P t) stages
    → All P (active_stages now stages)
unfolding active_stages
All-active_stages P now [] h = tt
All-active_stages P now (t ∷ stages) h = elim (Bool-cases (leb t.activate_at now)) [
  | inl due ↦ rw due (h.0 (leb→le _ _ due), All-active_stages P now stages h.1)
  | inr later ↦ rw later (All-active_stages P now stages h.1)
]

choice_reached :
    (stages : List ProgressiveStage) (s : ProgressiveStage) (before after : List ProgressiveStage)
    (bucket : ℕ)
    → All (λ t. t.activate_at < s.activate_at) before
    → All (λ t. t.activate_at ≤ s.activate_at) after
    → progressive_choice stages (before ++ s ∷ after) bucket ≡ ok (serve_stage s bucket)
unfolding progressive_choice
choice_reached stages s [] after bucket earlier low =
    ap (λ t. ok (serve_stage t bucket)) (latest-kept s after low)
choice_reached stages s (t ∷ before) after bucket earlier low =
    ap (λ u. ok (serve_stage u bucket)) (latest-reached t s before after earlier.0 earlier.1 low)

-- In any list, an active stage is the one that serves, by the bucket, if the active stages listed before
-- it start earlier and those listed behind it start no later: of the active stages that start last, the
-- one listed first.
pub progressive_variation_first :
    (before after : List ProgressiveStage) (s : ProgressiveStage) (bucket now : ℕ)
    → s.activate_at ≤ now
    → All (λ t. t.activate_at ≤ now → t.activate_at < s.activate_at) before
    → All (λ t. t.activate_at ≤ now → t.activate_at ≤ s.activate_at) after
    → progressive_variation (before ++ s ∷ after) bucket now ≡ ok (serve_stage s bucket)
unfolding progressive_variation
progressive_variation_first before after s bucket now active earlier low =
    let due : leb s.activate_at now ≡ true = ground arith in
    let here : active_stages now (s ∷ after) ≡ s ∷ active_stages now after =
      unfold active_stages in rw due refl in
    ap (λ l. progressive_choice (before ++ s ∷ after) l bucket)
      (active_stages-append now before (s ∷ after) ∙ ap (λ l. active_stages now before ++ l) here)
    ∙ choice_reached (before ++ s ∷ after) s (active_stages now before) (active_stages now after)
        bucket (All-active_stages _ now before earlier) (All-active_stages _ now after low)
