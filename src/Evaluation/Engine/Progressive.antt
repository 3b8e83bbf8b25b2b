-- ===== src/Evaluation/Engine/Progressive.antt =====
-- backend/app/evaluation/engine.py: `_progressive_variation` and a description of it.
pub mod Order
use native.Mathlib.Nat.{le_antisymm}
use cohort_switch.Prelude.{
  ℕ, ◌+◌, ◌<◌, ◌≤◌, ◌≡◌, refl, ap, sym, subst, ◌∙◌, ◌≢◌, ◌⊎◌, ◌↔◌, Bool, true, false, List, [], ◌∷◌,
  inl, inr, arith, ltb, leb, if◌then◌else◌, Bool-cases, All, IsIn, All-at, All-of_at, leb→le,
  ltb→lt, String,
}
use cohort_switch.Errors.{Result, ok, err}
use cohort_switch.Evaluation.Models.{ProgressiveStage}
use cohort_switch.Evaluation.Engine.{
  active_stages, earliest, latest, serve_stage, progressive_choice, progressive_variation,
}

-- `s` is active, and no stage that is active starts later.
pub record InForce (now : ℕ) (stages : List ProgressiveStage) (s : ProgressiveStage) : Type 0 where
  pub listed : IsIn s stages
  pub active : s.activate_at ≤ now
  pub newest :
      (t : ProgressiveStage) → IsIn t stages → t.activate_at ≤ now → t.activate_at ≤ s.activate_at

-- No stage is active, and `s` is one of those that start first.
pub record Awaited (now : ℕ) (stages : List ProgressiveStage) (s : ProgressiveStage) : Type 0 where
  pub listed : IsIn s stages
  pub pending : (t : ProgressiveStage) → IsIn t stages → now < t.activate_at
  pub first : (t : ProgressiveStage) → IsIn t stages → s.activate_at ≤ t.activate_at

pub latest-cons :
    (best s : ProgressiveStage) (xs : List ProgressiveStage)
    → ((latest best (s ∷ xs) ≡ latest s xs) × (best.activate_at < s.activate_at))
      ⊎ ((latest best (s ∷ xs) ≡ latest best xs) × (s.activate_at ≤ best.activate_at))
unfolding latest
latest-cons best s xs = elim (Bool-cases (ltb best.activate_at s.activate_at)) [
  | inl e ↦ inl (rw e, ground arith)
  | inr e ↦ inr (rw e, ground arith)
]

latest-IsIn :
    (best : ProgressiveStage) (xs : List ProgressiveStage) → IsIn (latest best xs) (best ∷ xs)
latest-IsIn best [] = inl (unfold latest in refl)
latest-IsIn best (s ∷ xs) = elim (latest-cons best s xs) [
  | inl (e, h) ↦ inr (subst (λ r. IsIn r (s ∷ xs)) (sym e) (latest-IsIn s xs))
  | inr (e, h) ↦
      subst (λ r. IsIn r (best ∷ s ∷ xs)) (sym e)
        (elim (latest-IsIn best xs) [ inl p ↦ inl p | inr i ↦ inr (inr i) ])
]

latest-le :
    (best : ProgressiveStage) (xs : List ProgressiveStage)
    → All (λ t. t.activate_at ≤ (latest best xs).activate_at) (best ∷ xs)
latest-le best [] = (unfold latest in omega arith, tt)
latest-le best (s ∷ xs) = elim (latest-cons best s xs) [
  | inl (e, h) ↦
      subst (λ r. All (λ t. t.activate_at ≤ r.activate_at) (best ∷ s ∷ xs)) (sym e)
        (let ih = latest-le s xs in (omega arith, ih))
  | inr (e, h) ↦
      subst (λ r. All (λ t. t.activate_at ≤ r.activate_at) (best ∷ s ∷ xs)) (sym e)
        (let ih = latest-le best xs in (ih.0, (omega arith, ih.1)))
]

earliest-cons :
    (best s : ProgressiveStage) (xs : List ProgressiveStage)
    → ((earliest best (s ∷ xs) ≡ earliest s xs) × (s.activate_at < best.activate_at))
      ⊎ ((earliest best (s ∷ xs) ≡ earliest best xs) × (best.activate_at ≤ s.activate_at))
unfolding earliest
earliest-cons best s xs = elim (Bool-cases (ltb s.activate_at best.activate_at)) [
  | inl e ↦ inl (rw e, ground arith)
  | inr e ↦ inr (rw e, ground arith)
]

earliest-IsIn :
    (best : ProgressiveStage) (xs : List ProgressiveStage) → IsIn (earliest best xs) (best ∷ xs)
earliest-IsIn best [] = inl (unfold earliest in refl)
earliest-IsIn best (s ∷ xs) = elim (earliest-cons best s xs) [
  | inl (e, h) ↦ inr (subst (λ r. IsIn r (s ∷ xs)) (sym e) (earliest-IsIn s xs))
  | inr (e, h) ↦
      subst (λ r. IsIn r (best ∷ s ∷ xs)) (sym e)
        (elim (earliest-IsIn best xs) [ inl p ↦ inl p | inr i ↦ inr (inr i) ])
]

earliest-le :
    (best : ProgressiveStage) (xs : List ProgressiveStage)
    → All (λ t. (earliest best xs).activate_at ≤ t.activate_at) (best ∷ xs)
earliest-le best [] = (unfold earliest in omega arith, tt)
earliest-le best (s ∷ xs) = elim (earliest-cons best s xs) [
  | inl (e, h) ↦
      subst (λ r. All (λ t. r.activate_at ≤ t.activate_at) (best ∷ s ∷ xs)) (sym e)
        (let ih = earliest-le s xs in (omega arith, ih))
  | inr (e, h) ↦
      subst (λ r. All (λ t. r.activate_at ≤ t.activate_at) (best ∷ s ∷ xs)) (sym e)
        (let ih = earliest-le best xs in (ih.0, (omega arith, ih.1)))
]

-- The filter keeps exactly the stages whose time has come.
mem-active_stages :
    (now : ℕ) (t : ProgressiveStage) (stages : List ProgressiveStage)
    → IsIn t (active_stages now stages) ↔ (IsIn t stages × (t.activate_at ≤ now))
unfolding active_stages
mem-active_stages now t [] = (λ i. elim i [ ], λ h. h.0)
mem-active_stages now t (s ∷ stages) = elim (Bool-cases (leb s.activate_at now)) [
  | inl due ↦ rw due (
    λ i. elim i [
      | inl e ↦ (inl e, rw (ap (λ (x : ProgressiveStage). x.activate_at) e) (leb→le _ _ due))
      | inr i ↦ let r = (mem-active_stages now t stages).0 i in (inr r.0, r.1)
    ],
    λ h. elim h.0 [ inl e ↦ inl e | inr i ↦ inr ((mem-active_stages now t stages).1 (i, h.1)) ],
  )
  | inr later ↦ rw later (
    λ i. let r = (mem-active_stages now t stages).0 i in (inr r.0, r.1),
    λ h. elim h.0 [
      | inl e ↦ absurd (ground (arith, ap (λ (x : ProgressiveStage). x.activate_at) e))
      | inr i ↦ (mem-active_stages now t stages).1 (i, h.1)
    ],
  )
]

latest-InForce :
    (stages : List ProgressiveStage) (a : ProgressiveStage) (active : List ProgressiveStage)
    (now : ℕ)
    → active_stages now stages ≡ a ∷ active
    → InForce now stages (latest a active)
latest-InForce stages a active now e =
    let member = λ (t : ProgressiveStage). mem-active_stages now t stages in
    let found : IsIn (latest a active) stages × ((latest a active).activate_at ≤ now) =
      (member (latest a active)).0
        (subst (λ l. IsIn (latest a active) l) (sym e) (latest-IsIn a active)) in
    record {
      listed = found.0;
      active = found.1;
      newest = λ t i due.
          All-at (λ u. u.activate_at ≤ (latest a active).activate_at) t (a ∷ active)
            (latest-le a active) (subst (λ l. IsIn t l) e ((member t).1 (i, due)));
    }

earliest-Awaited :
    (s : ProgressiveStage) (stages : List ProgressiveStage) (now : ℕ)
    → active_stages now (s ∷ stages) ≡ []
    → Awaited now (s ∷ stages) (earliest s stages)
earliest-Awaited s stages now e = record {
  listed = earliest-IsIn s stages;
  pending = λ t i. elim (Bool-cases (ltb now t.activate_at)) [
    | inl later ↦ ltb→lt _ _ later
    | inr due ↦
        absurd
          (subst (λ l. IsIn t l) e ((mem-active_stages now t (s ∷ stages)).1 (i, ground arith)))
  ];
  first = λ t i.
      All-at (λ u. (earliest s stages).activate_at ≤ u.activate_at) t (s ∷ stages)
        (earliest-le s stages) i;
}

-- What stages may serve: the stage in force, by the bucket, or before all the fallback of the first.
pub data Serves (now bucket : ℕ) (stages : List ProgressiveStage) (v : String) : Type 0 where
  current :
      (s : ProgressiveStage)
      → InForce now stages s
      → v ≡ serve_stage s bucket
      → Serves now bucket stages v
  awaiting :
      (s : ProgressiveStage)
      → Awaited now stages s
      → v ≡ s.fallback_variation
      → Serves now bucket stages v

-- From a list with a stage, a variation is served, as `Serves` describes.
pub progressive_variation-Serves :
    (stages : List ProgressiveStage) (bucket now : ℕ)
    → stages ≢ []
    → (v : String) × (progressive_variation stages bucket now ≡ ok v) × Serves now bucket stages v
unfolding progressive_variation
progressive_variation-Serves [] bucket now ne = absurd (ne refl)
progressive_variation-Serves (s ∷ stages) bucket now ne = go (active_stages now (s ∷ stages)) refl
  where
    go :
        (active : List ProgressiveStage)
        → active_stages now (s ∷ stages) ≡ active
        → (v : String) × (progressive_choice (s ∷ stages) (active_stages now (s ∷ stages)) bucket
            ≡ ok v)
          × Serves now bucket (s ∷ stages) v
    go [] e = (
      (earliest s stages).fallback_variation,
      ap (λ l. progressive_choice (s ∷ stages) l bucket) e,
      awaiting (earliest s stages) (earliest-Awaited s stages now e) refl,
    )
    go (a ∷ active) e = (
      serve_stage (latest a active) bucket,
      ap (λ l. progressive_choice (s ∷ stages) l bucket) e,
      current (latest a active) (latest-InForce (s ∷ stages) a active now e) refl,
    )
