-- ===== src/RateLimit/Dispatch/Bounds.antt =====
-- backend/app/core/middleware/__init__.py: how many requests the middleware lets through.
use cohort_switch.Prelude.{
  All, ℕ, zero, suc, ◌+◌, ◌-◌, ◌≤◌, ◌≡◌, sym, subst, String, Bool, true, false, [], ◌∷◌, List, inl,
  inr, arith, leb, lookup, Bool-cases,
}
use cohort_switch.Errors.{Result, ok, err}
use cohort_switch.RateLimit.{Limiter, local_allowed}
use cohort_switch.RateLimit.Limits.{count_true, let_through, let_through_le}
use cohort_switch.RateLimit.Dispatch.Steps.{
  Outlasts, held, failing, Step, by_redis, by_fallback, allow-Step,
}
use cohort_switch.RateLimit.Dispatch.{
  Guard, Settings, Visit, Attempt, window_of, is_exempt, limit_of, rate_key, dispatch,
}

count_true_le : (o : Result Bool) → count_true o ≤ 1
count_true_le (ok true) = omega arith
count_true_le (ok false) = omega arith
count_true_le (err e) = omega arith

let_through_each :
    (key : String) (limit window n : ℕ) (l : Limiter) → let_through key limit window n l ≤ n
unfolding let_through
let_through_each key limit window zero l = omega arith
let_through_each key limit window (suc n) l =
    let outcome = local_allowed key limit window l in
    omega (arith, count_true_le outcome.0, let_through_each key limit window n outcome.1)

-- requests whose calls of Redis do not all answer
abbrev pub failures : List Attempt → ℕ
failures [] = 0
failures (a ∷ attempts) = failing a.incr a.expire + failures attempts

module _ (settings : Settings) (v : Visit) where
  -- How many of the attempts at a request go on.
  unfoldable pub passes : List Attempt → Guard → ℕ
  passes [] g = 0
  passes (a ∷ attempts) g =
      let outcome = dispatch settings v a g in count_true outcome.0 + passes attempts outcome.1

  module _ (window : ℕ) where
    abbrev key_in : String
    key_in = rate_key settings v window

    abbrev limit_in : ℕ
    limit_in = limit_of settings v.path

    -- The attempts pass at most what Redis has left behind a count of `h`, and what the fallback lets
    -- through when it is asked, which is at most `fails` times.
    abbrev IsBounded : ℕ → ℕ → ℕ → Limiter → Type 0
    IsBounded passed fails h l =
        (m : ℕ) × (m ≤ fails) × (passed ≤ (limit_in - h) + let_through key_in limit_in window m l)

    Step-IsBounded :
        (attempts : List Attempt) (fails h : ℕ) (l : Limiter) (outcome : Result Bool × Guard)
        → Step key_in limit_in window fails h l outcome
        → ((g : Guard)
            → Outlasts window (lookup key_in g.counters)
            → IsBounded
                (passes attempts g)
                (failures attempts)
                (held (lookup key_in g.counters))
                g.limiter)
        → IsBounded
            (count_true outcome.0 + passes attempts outcome.1)
            (fails + failures attempts)
            h
            l
    unfolding let_through
    Step-IsBounded attempts fails h l _ (by_redis cs c at more lasts) rest =
        let g : Guard = record { counters = cs; limiter = l } in
        let (m, few, bound) = rest g (subst (Outlasts window) (sym at) lasts) in
        let bound : passes attempts g
            ≤ (limit_in - c.count) + let_through key_in limit_in window m l =
          subst
            (λ o. passes attempts g ≤ (limit_in - held o) + let_through key_in limit_in window m l)
            at bound in
        (
          m,
          omega (arith, few),
          elim (Bool-cases (leb c.count limit_in)) [
            | inl fits ↦
                let room : c.count ≤ limit_in = ground arith in
                rw fits (omega (arith, bound, more, room))
            | inr full ↦ rw full (omega (arith, bound, more))
          ],
        )
    Step-IsBounded attempts fails h l _ (by_fallback cs failed more lasts) rest =
        let called = local_allowed key_in limit_in window l in
        let (m, few, bound) = rest (record { counters = cs; limiter = called.1 }) lasts in
        (suc m, omega (arith, few, failed), omega (arith, bound, more))

    dispatch-Step :
        (a : Attempt) (g : Guard)
        → is_exempt v.path ≡ false
        → window_of a.now ≡ window
        → Outlasts window (lookup key_in g.counters)
        → Step key_in limit_in window
            (failing a.incr a.expire)
            (held (lookup key_in g.counters))
            g.limiter
            (dispatch settings v a g)
    unfolding dispatch
    dispatch-Step a g counted at kept =
        subst
          (λ w.
            Outlasts w (lookup (rate_key settings v w) g.counters)
            → Step (rate_key settings v w) limit_in w (failing a.incr a.expire)
                (held (lookup (rate_key settings v w) g.counters)) g.limiter
                (dispatch settings v a g))
          at
          (λ there.
            rw counted (allow-Step (rate_key settings v (window_of a.now)) limit_in a g there))
          kept

    passes-IsBounded :
        (attempts : List Attempt) (g : Guard)
        → is_exempt v.path ≡ false
        → All (λ a. window_of a.now ≡ window) attempts
        → Outlasts window (lookup key_in g.counters)
        → IsBounded
            (passes attempts g)
            (failures attempts)
            (held (lookup key_in g.counters))
            g.limiter
    unfolding passes
    passes-IsBounded [] g counted within kept = (0, omega arith, omega arith)
    passes-IsBounded (a ∷ attempts) g counted within kept =
        Step-IsBounded attempts _ _ g.limiter _ (dispatch-Step a g counted within.0 kept)
          (λ h there. passes-IsBounded attempts h counted within.1 there)

-- Of the attempts at a request in one window, whose path is not exempt, where no counter of the request
-- expires within the window, at most the limit go on and one more for each attempt in which a call of
-- Redis fails; and at most the limit go on and, beside these, what the fallback grants: the limit again,
-- or one where the limit is 0.
pub passes_le :
    (settings : Settings) (v : Visit) (window : ℕ) (attempts : List Attempt) (g : Guard)
    → is_exempt v.path ≡ false
    → All (λ a. window_of a.now ≡ window) attempts
    → Outlasts window (lookup (rate_key settings v window) g.counters)
    → (passes settings v attempts g ≤ limit_of settings v.path + failures attempts)
      × (passes settings v attempts g
          ≤ limit_of settings v.path + (1 + (limit_of settings v.path - 1)))
passes_le settings v window attempts g counted within kept =
    let (m, few, bound) = passes-IsBounded settings v window attempts g counted within kept in
    let key = rate_key settings v window in
    let limit = limit_of settings v.path in
    let each = let_through_each key limit window m g.limiter in
    let whole = let_through_le key limit window m g.limiter in
    (omega (arith, bound, few, each), omega (arith, bound, whole))
