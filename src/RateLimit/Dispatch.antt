-- ===== src/RateLimit/Dispatch.antt =====
-- backend/app/core/middleware/__init__.py: `RateLimitMiddleware.dispatch`, with its counters in Redis.
pub mod Steps
pub mod Bounds
use Prim.Native.String
use cohort_switch.Prelude.{
  ℕ, ◌+◌, ◌/◌, String, Option, none, some, Bool, true, false, ◌||◌, List, [], ◌∷◌, ◌==◌, ltb, leb,
  str_eq, starts_with, lookup, if◌then◌else◌,
}
use cohort_switch.Prelude.Decimal.{decimal}
use cohort_switch.Errors.{Result, ok, err}
use cohort_switch.Flags.Building.{set_entry}
use cohort_switch.Cache.{Call, answered, lost, refused}
use cohort_switch.RateLimit.{Limiter, local_allowed}

-- a counter in Redis, and when it expires, where it does
pub record Counter : Type 0 where
  pub count : ℕ
  pub expires_at : Option ℕ

abbrev pub Counters : Type 0
Counters = List (String × Counter)

-- what the middleware counts with: Redis, and its own fallback
pub record Guard : Type 0 where
  pub counters : Counters
  pub limiter : Limiter

abbrev pub is_live : ℕ → Option ℕ → Bool
is_live now none = true
is_live now (some t) = ltb now t

-- `INCR`: a key that is missing, or expired, counts from 0 and does not expire
unfoldable pub incremented : ℕ → Option Counter → Counter
incremented now none = record { count = 1; expires_at = none }
incremented now (some c) =
    if is_live now c.expires_at
    then record { count = c.count + 1; expires_at = c.expires_at }
    else record { count = 1; expires_at = none }

-- the settings, and the truncated SHA-256 of an identity
pub record Settings : Type 0 where
  pub sdk_rate_limit : ℕ
  pub management_rate_limit : ℕ
  pub identity_hash : String → String

-- what the middleware reads of a request
pub record Visit : Type 0 where
  pub path : String
  pub credential : Option String
  pub host : Option String

-- how the calls of one request end, and when it comes, in microseconds
pub record Attempt : Type 0 where
  pub now : ℕ
  pub incr : Call
  pub expire : Call

abbrev pub window_of : ℕ → ℕ
window_of now = now / 60000000

module _ (key : String) (limit : ℕ) where
  -- the branch of the `except`
  unfoldable pub fall_back : ℕ → Guard → Result Bool × Guard
  fall_back now g =
      let (allowed, limiter) = local_allowed key limit (window_of now) g.limiter in
      (allowed, record g { limiter = limiter })

  abbrev pub store : Counter → Guard → Guard
  store c g = record g { counters = set_entry key c g.counters }

  -- `EXPIRE`, which gives the counter 61 seconds
  unfoldable pub expire_first : ℕ → Call → Counter → Guard → Result Bool × Guard
  unfolding fall_back
  expire_first now answered c g = (
    ok (leb c.count limit),
    store (record { count = c.count; expires_at = some (now + 61000000) }) g,
  )
  expire_first now lost c g =
      fall_back now (store (record { count = c.count; expires_at = some (now + 61000000) }) g)
  expire_first now refused c g = fall_back now g

  -- what follows an answered `INCR`, which left the counter `c`
  unfoldable pub decide : ℕ → Call → Counter → Guard → Result Bool × Guard
  unfolding expire_first
  decide now expire c g =
      if c.count == 1 then expire_first now expire c g else (ok (leb c.count limit), g)

  -- the `try` and its `except`: whether the request is allowed
  unfoldable pub allow_by : ℕ → Call → Call → Counter → Guard → Result Bool × Guard
  unfolding decide fall_back
  allow_by now answered expire c g = decide now expire c (store c g)
  allow_by now lost expire c g = fall_back now (store c g)
  allow_by now refused expire c g = fall_back now g

  unfoldable pub allow : Attempt → Guard → Result Bool × Guard
  unfolding allow_by incremented
  allow a g = allow_by a.now a.incr a.expire (incremented a.now (lookup key g.counters)) g

abbrev pub is_exempt : String → Bool
is_exempt path = starts_with path "/health" || starts_with path "/metrics"

abbrev pub is_evaluation : String → Bool
is_evaluation path = starts_with path "/api/v1/evaluate"

module _ (settings : Settings) where
  abbrev pub limit_of : String → ℕ
  limit_of path =
      if is_evaluation path then settings.sdk_rate_limit else settings.management_rate_limit

abbrev host_of : Option String → String
host_of none = "unknown"
host_of (some host) = host

-- `credential or (request.client.host if request.client else "unknown")`
unfoldable pub identity_of : Visit → String
identity_of v = elim v.credential [
  | none ↦ host_of v.host
  | some credential ↦ if str_eq credential "" then host_of v.host else credential
]

unfoldable pub rate_key : Settings → Visit → ℕ → String
unfolding identity_of
rate_key settings v window = Prim.Native.String.◌++◌ "cohortswitch:ratelimit:" (
    Prim.Native.String.◌++◌ (if is_evaluation v.path then "evaluation" else "management") (
      Prim.Native.String.◌++◌ ":" (
        Prim.Native.String.◌++◌ (settings.identity_hash (identity_of v))
          (Prim.Native.String.◌++◌ ":" (decimal window)))))

-- Whether the request goes on, or is answered with a 429.
unfoldable pub dispatch : Settings → Visit → Attempt → Guard → Result Bool × Guard
unfolding allow rate_key
dispatch settings v a g =
    if is_exempt v.path
    then (ok true, g)
    else allow (rate_key settings v (window_of a.now)) (limit_of settings v.path) a g
