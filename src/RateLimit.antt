-- ===== src/RateLimit.antt =====
-- backend/app/core/middleware/__init__.py: the local fallback of `RateLimitMiddleware`.
pub mod Limits
pub mod Lost
pub mod Dispatch
mod Tests
use cohort_switch.Prelude.{
  ℕ, ◌+◌, suc, String, Option, none, some, Bool, true, false, not, List, [], ◌∷◌, ◌==◌, ltb, leb,
  str_eq, lookup, length, if◌then◌else◌,
}
use cohort_switch.Errors.{Result, ok, err, key_error}

-- `(window, count)`
pub record Usage : Type 0 where
  pub window : ℕ
  pub count : ℕ

abbrev pub usage : ℕ → ℕ → Usage
usage w c = record { window = w; count = c }

abbrev pub Buckets : Type 0
Buckets = List (String × Usage)

-- `_local`: the window and the count of each key. It starts as a defaultdict, and a comprehension
-- replaces it by a plain dict.
pub record Limiter : Type 0 where
  pub buckets : Buckets
  pub has_default : Bool

-- `d[key] = value`
unfoldable pub put : String → Usage → Buckets → Buckets
put key u [] = (key, u) ∷ []
put key u ((k, v) ∷ d) = if str_eq k key then (k, u) ∷ d else (k, v) ∷ put key u d

-- `{... if value[0] >= window - 1}`
unfoldable pub recent : ℕ → Buckets → Buckets
recent window [] = []
recent window ((k, u) ∷ d) =
    if leb window (u.window + 1) then (k, u) ∷ recent window d else recent window d

unfoldable pub prune : ℕ → Limiter → Limiter
unfolding recent
prune window l =
    if ltb 20000 (length l.buckets)
    then record { buckets = recent window l.buckets; has_default = false }
    else l

module _ (key : String) (limit window : ℕ) where
  -- what follows the lookup of the key's window and count
  unfoldable pub admit : Usage → Limiter → Result Bool × Limiter
  unfolding put prune
  admit u l =
      if not (u.window == window)
      then (ok true, record l { buckets = put key (usage window 1) l.buckets })
      else if leb limit u.count
      then (ok false, l)
      else (
        ok true,
        prune window (record l { buckets = put key (usage window (u.count + 1)) l.buckets }),
      )

  -- the lookup: a defaultdict inserts (0, 0) for a missing key, and a plain dict raises KeyError
  unfoldable pub admit_by : Option Usage → Limiter → Result Bool × Limiter
  unfolding admit put
  admit_by (some u) l = admit u l
  admit_by none l =
      if l.has_default
      then admit (usage 0 0) (record l { buckets = put key (usage 0 0) l.buckets })
      else (err key_error, l)

  unfoldable pub local_allowed : Limiter → Result Bool × Limiter
  unfolding admit_by
  local_allowed l = admit_by (lookup key l.buckets) l
