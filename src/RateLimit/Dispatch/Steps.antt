-- ===== src/RateLimit/Dispatch/Steps.antt =====
-- backend/app/core/middleware/__init__.py: what one request does to the counters and to the fallback.
use cohort_switch.Prelude.{
  ℕ, ◌+◌, ◌*◌, ◌≤◌, ◌≡◌, refl, sym, subst, String, Option, none, some, Bool, true, inl, inr, arith,
  ◌==◌, leb, lookup, Bool-cases,
}
use cohort_switch.Errors.{Result, ok}
use cohort_switch.Flags.Building.{set_entry}
use cohort_switch.Flags.Lookup.Dicts.{lookup-set_entry}
use cohort_switch.Cache.{Call, answered, lost, refused}
use cohort_switch.RateLimit.{Limiter, local_allowed}
use cohort_switch.RateLimit.Dispatch.{
  Counter, Counters, Guard, Attempt, is_live, incremented, window_of, fall_back, store,
  expire_first, decide, allow_by, allow,
}

-- A counter that does not expire within the window.
abbrev pub Outlasts : ℕ → Option Counter → Type 0
Outlasts window none = Unit
Outlasts window (some c) = elim c.expires_at [ none ↦ Unit | some t ↦ (window + 1) * 60000000 ≤ t ]

abbrev pub held : Option Counter → ℕ
held none = 0
held (some c) = c.count

-- whether a call of Redis fails
abbrev pub failing : Call → Call → ℕ
failing answered answered = 0
failing _ _ = 1

incremented_live :
    (now window n : ℕ) (e : Option ℕ)
    → window_of now ≡ window
    → Outlasts window (some (record { count = n; expires_at = e }))
    → is_live now e ≡ true
incremented_live now window n none at kept = refl
incremented_live now window n (some t) at kept = ground arith

incremented-counts :
    (now window : ℕ) (o : Option Counter)
    → window_of now ≡ window
    → Outlasts window o
    → ((incremented now o).count ≡ held o + 1) × Outlasts window (some (incremented now o))
unfolding incremented
incremented-counts now window none at kept = (refl, tt)
incremented-counts now window (some c) at kept =
    let live = incremented_live now window c.count c.expires_at at kept in rw live (refl, kept)

-- What becomes of the counters, where the one of the key was at `h`, and of the fallback: the count in
-- Redis decides, or the fallback does, after a call that failed.
pub data Step (key : String) (limit window fails h : ℕ) (l : Limiter)
    : Result Bool × Guard → Type 0 where
  by_redis :
      (cs : Counters) (c : Counter)
      → lookup key cs ≡ some c
      → c.count ≡ h + 1
      → Outlasts window (some c)
      → Step key limit window fails h l
          (ok (leb c.count limit), record { counters = cs; limiter = l })
  by_fallback :
      (cs : Counters)
      → fails ≡ 1
      → h ≤ held (lookup key cs)
      → Outlasts window (lookup key cs)
      → Step key limit window fails h l (
        (local_allowed key limit window l).0,
        record { counters = cs; limiter = (local_allowed key limit window l).1 },
      )

module _ (key : String) (limit now : ℕ) where
  stored_redis :
      (fails h : ℕ) (c : Counter) (g : Guard)
      → c.count ≡ h + 1
      → Outlasts (window_of now) (some c)
      → Step key limit
          (window_of now)
          fails
          h
          g.limiter
          (ok (leb c.count limit), store key limit c g)
  stored_redis fails h c g more lasts =
      by_redis (set_entry key c g.counters) c (lookup-set_entry key c g.counters) more lasts

  -- the fallback, once the counter is stored
  stored_fallback :
      (h : ℕ) (c : Counter) (g : Guard)
      → c.count ≡ h + 1
      → Outlasts (window_of now) (some c)
      → Step key limit (window_of now) 1 h g.limiter (fall_back key limit now (store key limit c g))
  unfolding fall_back
  stored_fallback h c g more lasts =
      let at = lookup-set_entry key c g.counters in
      by_fallback (set_entry key c g.counters) refl (rw at (omega (arith, more)))
        (subst (Outlasts (window_of now)) (sym at) lasts)

  -- the first request of a window, whose counter is to expire
  expire_first-Step :
      (h : ℕ) (expire : Call) (c : Counter) (g : Guard)
      → c.count ≡ h + 1
      → Outlasts (window_of now) (some c)
      → Step key limit
          (window_of now)
          (failing answered expire)
          h
          g.limiter
          (expire_first key limit now expire c (store key limit c g))
  unfolding expire_first
  expire_first-Step h answered c g more lasts =
      stored_redis 0 h _ (store key limit c g) more (omega arith)
  expire_first-Step h lost c g more lasts =
      stored_fallback h _ (store key limit c g) more (omega arith)
  expire_first-Step h refused c g more lasts = stored_fallback h c g more lasts

  allow_by-Step :
      (incr expire : Call) (c : Counter) (g : Guard)
      → c.count ≡ held (lookup key g.counters) + 1
      → Outlasts (window_of now) (some c)
      → Outlasts (window_of now) (lookup key g.counters)
      → Step key limit
          (window_of now)
          (failing incr expire)
          (held (lookup key g.counters))
          g.limiter
          (allow_by key limit now incr expire c g)
  unfolding allow_by decide fall_back
  allow_by-Step answered expire c g more lasts kept = elim (Bool-cases (c.count == 1)) [
    | inl first ↦ rw first (expire_first-Step _ expire c g more lasts)
    | inr later ↦ rw later (stored_redis _ _ c g more lasts)
  ]
  allow_by-Step lost expire c g more lasts kept = stored_fallback _ c g more lasts
  allow_by-Step refused expire c g more lasts kept = by_fallback g.counters refl (omega arith) kept

pub allow-Step :
    (key : String) (limit : ℕ) (a : Attempt) (g : Guard)
    → Outlasts (window_of a.now) (lookup key g.counters)
    → Step key limit
        (window_of a.now)
        (failing a.incr a.expire)
        (held (lookup key g.counters))
        g.limiter
        (allow key limit a g)
unfolding allow
allow-Step key limit a g kept =
    let counts = incremented-counts a.now (window_of a.now) (lookup key g.counters) refl kept in
    allow_by-Step key limit a.now a.incr a.expire (incremented a.now (lookup key g.counters)) g
      counts.0 counts.1 kept
