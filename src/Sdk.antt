-- ===== src/Sdk.antt =====
-- sdk/python/src/cohortswitch: the Python client, with its cache of decisions.
pub mod Caching
mod Tests
use Prim.Native.String
use cohort_switch.Prelude.{
  ℕ, ◌+◌, ◌-◌, String, Option, none, some, Bool, true, false, not, List, [], ◌∷◌, ◌==◌, ltb, str_eq,
  starts_with, lookup, length, if◌then◌else◌,
}
use cohort_switch.Prelude.Int.{ℤ}
use cohort_switch.Errors.{Error, Result, ok, err, value_error, key_error, ◌>>=◌}
use cohort_switch.Evaluation.Value.{Value, bool, null}
use cohort_switch.Flags.Building.{set_entry}
use cohort_switch.Flags.Tables.{or_raise}

-- `EvaluationResult` of the client
pub record Decision : Type 0 where
  pub flag_key : String
  pub value : Value
  pub variation : String
  pub reason : String
  pub matched_rule : Value
  pub config_version : ℤ
  pub evaluated_at : ℕ

-- What a call of the client may raise: a `CohortSwitchError`, with its code and status, or an
-- exception of its own code.
pub data Failure : Type 0 where
  sdk_error : String → Option ℕ → Failure
  raised : Error → Failure

pub data Outcome (V : Type 0) : Type 0 where
  failed : Failure → Outcome V
  returned : V → Outcome V

-- How a request ends: no answer in time, another failure of the connection, a status that is an error
-- with the code of its body, where it has one, or a body.
pub data Reply (Body : Type 0) : Type 0 where
  timed_out unreachable : Reply Body
  refused : ℕ → Option String → Reply Body
  answered : Body → Reply Body

-- an entry of the cache
pub record Cached : Type 0 where
  pub expires_at : ℕ
  pub result : Decision

pub record Client : Type 0 where
  pub cache_ttl : ℕ
  pub cache : List (String × Cached)

-- The constructor: the key is tested, and the cache is empty. (The time to live is a natural number,
-- in microseconds, so the maximum with 0 is the time itself.)
unfoldable pub new_client : String → ℕ → Result Client
new_client sdk_key cache_ttl =
    if not (starts_with sdk_key "cs_sdk_")
    then err value_error
    else ok (record { cache_ttl = cache_ttl; cache = [] })

-- `_post`
unfoldable pub post : {Body : Type 0} → Reply Body → Outcome Body
post timed_out = failed (sdk_error "timeout" none)
post unreachable = failed (sdk_error "network_error" none)
post (refused status (some code)) = failed (sdk_error code (some status))
post (refused status none) = failed (sdk_error "api_error" (some status))
post (answered body) = returned body

-- `json.dumps` with sorted keys, and SHA-256
module _ (canonical : List (String × Value) → String) (digest : String → String) where
  -- `_cache_key`
  unfoldable pub cache_key : String → String → List (String × Value) → String
  cache_key flag_key subject_key attributes = digest (
      Prim.Native.String.◌++◌ flag_key (
        Prim.Native.String.◌++◌ "\0" (
          Prim.Native.String.◌++◌ subject_key
            (Prim.Native.String.◌++◌ "\0" (canonical attributes)))))

-- `{... if value.expires_at > now}`
unfoldable pub unexpired : ℕ → List (String × Cached) → List (String × Cached)
unexpired now [] = []
unexpired now ((k, c) ∷ cache) =
    let rest = unexpired now cache in if ltb now c.expires_at then (k, c) ∷ rest else rest

-- `_prune_cache`
unfoldable pub prune_cache : ℕ → Client → Client
unfolding unexpired
prune_cache now client =
    if not (ltb 10000 (length client.cache))
    then client
    else record client { cache = unexpired now client.cache }

-- the decision is kept, where the client caches
unfoldable pub keep : ℕ → String → Decision → Client → Client
unfolding set_entry prune_cache
keep now key decision client =
    if client.cache_ttl == 0
    then client
    else prune_cache now (record client {
      cache =
          set_entry key (record { expires_at = now + client.cache_ttl; result = decision })
            client.cache;
    })

-- what follows the request, which ends at `now`
unfoldable pub keep_outcome : ℕ → String → Outcome Decision → Client → Outcome Decision × Client
unfolding keep
keep_outcome now key (failed f) client = (failed f, client)
keep_outcome now key (returned decision) client = (returned decision, keep now key decision client)

unfoldable pub value_of : Outcome Decision → Outcome Value
value_of (failed f) = failed f
value_of (returned decision) = returned decision.value

-- the boolean of a decision, where it has one
unfoldable pub boolean_of : Outcome Decision → Outcome Bool
boolean_of (failed f) = failed f
boolean_of (returned decision) = elim decision.value [
  | bool b ↦ returned b
  | _ ↦ failed (sdk_error "type_mismatch" none)
]

-- `to_text` is `str(...)`, `to_int` is `int(...)` and `to_time` reads an instant in ISO format.
module _ (to_text : Value → String) (to_int : Value → Result ℤ) (to_time : String → Result ℕ) where
  abbrev field : String → List (String × Value) → Result Value
  field key payload = or_raise (lookup key payload) key_error

  abbrev or_null : Option Value → Value
  or_null none = null
  or_null (some v) = v

  -- `EvaluationResult.from_payload`
  unfoldable pub from_payload : List (String × Value) → Result Decision
  from_payload payload = do
    flag_key ← field "flag_key" payload
    value ← field "value" payload
    variation ← field "variation" payload
    reason ← field "reason" payload
    version ← field "config_version" payload
    config_version ← to_int version
    instant ← field "evaluated_at" payload
    evaluated_at ← to_time (to_text instant)
    ok (record {
      flag_key = to_text flag_key;
      value = value;
      variation = to_text variation;
      reason = to_text reason;
      matched_rule = or_null (lookup "matched_rule" payload);
      config_version = config_version;
      evaluated_at = evaluated_at;
    })

  -- what is made of a body
  unfoldable pub decided : Outcome (List (String × Value)) → Outcome Decision
  unfolding from_payload
  decided (failed f) = failed f
  decided (returned payload) = elim (from_payload payload) [
    | err e ↦ failed (raised e)
    | ok decision ↦ returned decision
  ]

  -- what follows the lookup in the cache
  unfoldable pub evaluate_by :
      Option Cached
      → ℕ
      → ℕ
      → String
      → Reply (List (String × Value))
      → Client
      → Outcome Decision × Client
  unfolding decided post keep_outcome
  evaluate_by none asked ended key reply client =
      keep_outcome ended key (decided (post reply)) client
  evaluate_by (some c) asked ended key reply client =
      if ltb asked c.expires_at
      then (returned c.result, client)
      else keep_outcome ended key (decided (post reply)) client

  module _ (canonical : List (String × Value) → String) (digest : String → String) where
    -- `asked` is the time of the call, and `reply` what the server answers by `ended`.
    unfoldable pub evaluate :
        ℕ
        → ℕ
        → String
        → String
        → List (String × Value)
        → Reply (List (String × Value))
        → Client
        → Outcome Decision × Client
    unfolding evaluate_by
    evaluate asked ended flag_key subject_key attributes reply client =
        let key = cache_key canonical digest flag_key subject_key attributes in
        evaluate_by (lookup key client.cache) asked ended key reply client

    unfoldable pub get_value :
        ℕ
        → ℕ
        → String
        → String
        → List (String × Value)
        → Reply (List (String × Value))
        → Client
        → Outcome Value × Client
    unfolding evaluate value_of
    get_value asked ended flag_key subject_key attributes reply client =
        let (outcome, after) = evaluate asked ended flag_key subject_key attributes reply client in
        (value_of outcome, after)

    unfoldable pub is_enabled :
        ℕ
        → ℕ
        → String
        → String
        → List (String × Value)
        → Reply (List (String × Value))
        → Client
        → Outcome Bool × Client
    unfolding evaluate boolean_of
    is_enabled asked ended flag_key subject_key attributes reply client =
        let (outcome, after) = evaluate asked ended flag_key subject_key attributes reply client in
        (boolean_of outcome, after)

  -- the results of a batch, which is not cached
  unfoldable pub decide_all :
      List (String × List (String × Value))
      → List (String × Decision)
      → Result (List (String × Decision))
  unfolding from_payload set_entry
  decide_all [] decisions = ok decisions
  decide_all ((key, payload) ∷ results) decisions = do
    decision ← from_payload payload
    decide_all results (set_entry key decision decisions)

  -- The body of a reply is what it has under "results".
  unfoldable pub evaluate_batch :
      Reply (Option (List (String × List (String × Value)))) → Outcome (List (String × Decision))
  unfolding post decide_all
  evaluate_batch reply = elim (post reply) [
    | failed f ↦ failed f
    | returned body ↦ elim (or_raise body key_error >>= (λ results. decide_all results [])) [
      | err e ↦ failed (raised e)
      | ok decisions ↦ returned decisions
    ]
  ]

-- `clear_cache`
unfoldable pub clear_cache : Client → Client
clear_cache client = record client { cache = [] }
