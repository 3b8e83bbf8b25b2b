-- ===== src/Cache/Keys.antt =====
-- backend/app/services/cache.py: the keys of the cache.
use Prim.Native.Char.{code}
use Prim.Native.String.{◌++◌}
use text.Mathlib.TextLemmas.{
  append_cancel_left, cons-append, nil-append, head-eq_of_cons-eq, tail-eq_of_cons-eq,
}
use cohort_switch.Prelude.{ℕ, ◌≡◌, refl, sym, ap, ◌∙◌, String, Bool, true, not, ◌&&◌, ◌==◌, arith}
use cohort_switch.Runtime.{Runtime}
use cohort_switch.Cache.{config_cache_key}

-- The text has no `:`.
abbrev pub is_plain : String → Bool
is_plain String.[] = true
is_plain (String.◌∷◌ c s) = not (code c == 58) && is_plain s

-- What the texts of ids have: two ids have two texts, and none holds a `:`.
pub record IsNaming (rt : Runtime) : Type 0 where
  pub distinct : (i j : ℕ) → rt.uuid_str i ≡ rt.uuid_str j → i ≡ j
  pub plain : (i : ℕ) → is_plain (rt.uuid_str i) ≡ true

-- Two texts without a `:` end at the first `:`.
split :
    (s s' t t' : String)
    → is_plain s ≡ true
    → is_plain s' ≡ true
    → s ++ (":" ++ t) ≡ s' ++ (":" ++ t')
    → (s ≡ s') × (t ≡ t')
split String.[] String.[] t t' p p' e =
    (refl, append_cancel_left ":" t t' (sym (nil-append _) ∙ e ∙ nil-append _))
split String.[] (String.◌∷◌ c s') t t' p p' e =
    let h = sym (cons-append _ String.[] t) ∙ sym (nil-append _) ∙ e ∙ cons-append c s' _ in
    let at = ap code (head-eq_of_cons-eq h) in absurd (ground arith)
split (String.◌∷◌ c s) String.[] t t' p p' e =
    let h = sym (cons-append _ String.[] t') ∙ sym (nil-append _) ∙ sym e ∙ cons-append c s _ in
    let at = ap code (head-eq_of_cons-eq h) in absurd (ground arith)
split (String.◌∷◌ c s) (String.◌∷◌ c' s') t t' p p' e =
    let h = sym (cons-append c s _) ∙ e ∙ cons-append c' s' _ in
    let (u, v) = split s s' t t' (ground arith) (ground arith) (tail-eq_of_cons-eq h) in
    let first = head-eq_of_cons-eq h in (cc, v)

module _ (rt : Runtime) (naming : IsNaming rt) where
  -- Two configurations that have one key are of one project, environment and flag.
  pub config_cache_key-injective :
      (p p' e e' : ℕ) (k k' : String)
      → config_cache_key rt p e k ≡ config_cache_key rt p' e' k'
      → (p ≡ p') × (e ≡ e') × (k ≡ k')
  unfolding config_cache_key
  config_cache_key-injective p p' e e' k k' h =
      let (u, rest) =
        split (rt.uuid_str p) (rt.uuid_str p') _ _ (naming.plain p) (naming.plain p')
          (append_cancel_left "cohortswitch:config:" _ _ h) in
      let (v, last) =
        split (rt.uuid_str e) (rt.uuid_str e') k k' (naming.plain e) (naming.plain e') rest in
      (naming.distinct p p' u, naming.distinct e e' v, last)
