-- ===== src/RateLimit/Tests.antt =====
-- The theorems on the fallback at concrete inputs.
use cohort_switch.Prelude.{All, starts_with, ◌≤◌, ◌≡◌, refl, none, some, true, false, List, [], ◌∷◌}
use cohort_switch.Prelude.Decimal.{decimal}
use cohort_switch.Errors.{err, key_error}
use cohort_switch.Cache.{answered, lost, refused}
use cohort_switch.RateLimit.Dispatch.{
  Guard, Settings, Visit, Attempt, is_exempt, window_of, dispatch, rate_key, allow, allow_by,
  decide, expire_first, fall_back, incremented, identity_of,
}
use cohort_switch.RateLimit.Dispatch.Bounds.{passes, passes_le}
use cohort_switch.Flags.Building.{set_entry}
use cohort_switch.RateLimit.{Limiter, usage, local_allowed}
use cohort_switch.RateLimit.Limits.{let_through, let_through_le}
use cohort_switch.RateLimit.Lost.{Call, run, local_allowed-lost}

abbrev new_limiter : Limiter
new_limiter = record { buckets = []; has_default = true }

let_through_test : let_through "a" 2 9 5 new_limiter ≡ 2
unfolding let_through local_allowed
let_through_test = refl

let_through_le_example : let_through "a" 2 9 5 new_limiter ≤ 2
let_through_le_example = let_through_le "a" 2 9 5 new_limiter

abbrev pruned : Limiter
pruned = record { buckets = ("a", usage 9 1) ∷ []; has_default = false }

abbrev calls : List Call
calls =
    record { key = "a"; limit = 2; window = 9 } ∷ record { key = "c"; limit = 2; window = 9 } ∷ []

local_allowed-lost_example :
    local_allowed "b" 2 10 (run calls pruned) ≡ (err key_error, run calls pruned)
local_allowed-lost_example = local_allowed-lost "b" 2 10 calls pruned refl refl

abbrev settings : Settings
settings = record {
  sdk_rate_limit = 2;
  management_rate_limit = 1;
  identity_hash = λ identity. identity;
}

abbrev visit : Visit
visit = record { path = "/api/v1/evaluate"; credential = some "k"; host = none }

-- In the tenth minute: the first request is counted, the second one finds Redis down, and the others
-- are counted; the last answer is lost.
abbrev attempts : List Attempt
attempts =
    record { now = 545000000; incr = answered; expire = answered }
    ∷ record { now = 546000000; incr = refused; expire = answered }
    ∷ record { now = 547000000; incr = answered; expire = answered }
    ∷ record { now = 548000000; incr = answered; expire = answered }
    ∷ record { now = 599000000; incr = lost; expire = answered }
    ∷ []

abbrev guard : Guard
guard = record { counters = []; limiter = new_limiter }

passes_test : passes settings visit attempts guard ≡ 4
unfolding starts_with decimal passes dispatch rate_key allow allow_by decide expire_first fall_back
    incremented identity_of set_entry local_allowed
passes_test = refl

evaluation_counts : is_exempt visit.path ≡ false
unfolding starts_with
evaluation_counts = refl

within : All (λ a. window_of a.now ≡ 9) attempts
within = (refl, (refl, (refl, (refl, (refl, tt)))))

passes_le_example :
    (passes settings visit attempts guard ≤ 4) × (passes settings visit attempts guard ≤ 4)
unfolding starts_with
passes_le_example = passes_le settings visit 9 attempts guard evaluation_counts within tt
