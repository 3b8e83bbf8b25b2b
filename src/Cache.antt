-- ===== src/Cache.antt =====
-- backend/app/services/cache.py: the cache of configurations in Redis, read through to the database.
pub mod Keys
mod Tests
pub mod Coherence
pub mod Staleness
pub mod Texts
pub mod Hits
pub mod Batch
use Prim.Native.String
use cohort_switch.Prelude.{
  ℕ, ◌+◌, String, Option, none, some, Bool, true, false, not, ◌&&◌, List, [], ◌∷◌, ◌++◌, ◌==◌, ltb,
  str_eq, elem, keys, is_nonempty, map, Ordering, if◌then◌else◌,
}
use mathlib.Core.Option
use cohort_switch.Errors.{
  Error, Result, ok, err, value_error, api_error, flags, raise_if, ◌>>=◌, ◌>>◌,
}
use cohort_switch.Runtime.{Runtime}
use cohort_switch.Evaluation.Models.{FlagConfiguration, validate_configuration}
use cohort_switch.Flags.Building.{set_entry}
use cohort_switch.Flags.Tables.{Db, find_where, select_where}
use cohort_switch.Flags.Lookup.{get_config_by_key, get_configs_by_keys}

-- An entry of Redis. Its text is the configuration that was dumped into it.
pub record Entry : Type 0 where
  pub key : String
  pub payload : FlagConfiguration
  pub expires_at : ℕ

abbrev pub Redis : Type 0
Redis = List Entry

abbrev pub is_at_key : String → Entry → Bool
is_at_key key e = str_eq e.key key

-- `GET`: an entry is gone once its time is over
unfoldable pub redis_get : ℕ → String → Redis → Option FlagConfiguration
redis_get now key redis =
    Option.map (λ e. e.payload) (find_where (λ e. is_at_key key e && ltb now e.expires_at) redis)

-- `DEL`
unfoldable pub redis_delete : String → Redis → Redis
redis_delete key redis = select_where (λ e. not (is_at_key key e)) redis

-- `SET ... EX`
unfoldable pub redis_set : ℕ → String → FlagConfiguration → Redis → Redis
unfolding redis_delete
redis_set expires_at key config redis =
    record { key = key; payload = config; expires_at = expires_at } ∷ redis_delete key redis

-- How a call of Redis ends: with its answer; with an error after it was carried out; or with an error
-- and nothing done.
pub data Call : Type 0 where
  answered lost refused : Call

abbrev pub is_applied : Call → Bool
is_applied answered = true
is_applied lost = true
is_applied refused = false

abbrev pub is_answered : Call → Bool
is_answered answered = true
is_answered _ = false

-- what `redis.publish` sends to the subscribers of a channel
pub record Event : Type 0 where
  pub channel : String
  pub event : String
  pub flag_key : String
  pub config_version : ℕ
  pub revision : ℕ

-- `list(dict.fromkeys(keys))`: the first of each key, but those of `seen`
unfoldable pub unique_keys : List String → List String → List String
unique_keys seen [] = []
unique_keys seen (k ∷ ks) =
    let others = unique_keys (k ∷ seen) ks in if elem k seen then others else k ∷ others

-- `a <= b`, on texts
abbrev pub text_leb : String → String → Bool
text_leb a b = elim (Prim.Native.String.compare a b) [ Ordering.gt ↦ false | _ ↦ true ]

abbrev pub insert_text : String → List String → List String
insert_text x [] = x ∷ []
insert_text x (y ∷ ys) = if text_leb x y then x ∷ y ∷ ys else y ∷ insert_text x ys

abbrev pub sorted_texts : List String → List String
sorted_texts [] = []
sorted_texts (x ∷ xs) = insert_text x (sorted_texts xs)

abbrev pub flags_not_found : List String → Error
flags_not_found missing =
    api_error 404 "flags_not_found" "One or more flags were not found." (flags missing)

module _ (rt : Runtime) (project_id environment_id : ℕ) where
  unfoldable pub config_cache_key : String → String
  config_cache_key flag_key = Prim.Native.String.◌++◌ "cohortswitch:config:" (
      Prim.Native.String.◌++◌ (rt.uuid_str project_id) (
        Prim.Native.String.◌++◌ ":" (
          Prim.Native.String.◌++◌ (rt.uuid_str environment_id)
            (Prim.Native.String.◌++◌ ":" flag_key))))

  abbrev pub channel : String
  channel = Prim.Native.String.◌++◌ "cohortswitch:events:" (
      Prim.Native.String.◌++◌ (rt.uuid_str project_id)
        (Prim.Native.String.◌++◌ ":" (rt.uuid_str environment_id)))

  -- The entries and the messages that are published; an error of either call skips the rest.
  unfoldable pub invalidate_and_publish :
      Call → Call → String → String → ℕ → ℕ → Redis → List Event → Redis × List Event
  unfolding redis_delete config_cache_key
  invalidate_and_publish del publish flag_key event version revision redis events = (
    if is_applied del then redis_delete (config_cache_key flag_key) redis else redis,
    if is_answered del && is_applied publish
        then events
          ++ (record {
            channel = channel;
            event = event;
            flag_key = flag_key;
            config_version = version;
            revision = revision;
          }
              ∷ [])
        else events,
  )

-- Redis may be away at each call. `ttl` is the setting `cache_ttl_seconds`, in microseconds.
module _ (rt : Runtime) (now ttl : ℕ) (project_id environment_id : ℕ) where
  -- what `redis.get` answers, and nothing where it fails: `answers` says which
  unfoldable pub read_cached : Bool → String → Redis → Option FlagConfiguration
  unfolding redis_get config_cache_key
  read_cached answers flag_key redis =
      if answers
      then redis_get now (config_cache_key rt project_id environment_id flag_key) redis
      else none

  -- the write behind a miss: `written` says whether it reaches Redis; its failure is only logged
  unfoldable pub write_cached : Bool → String → FlagConfiguration → Redis → Redis
  unfolding redis_set config_cache_key
  write_cached written flag_key config redis =
      if written
      then redis_set (now + ttl) (config_cache_key rt project_id environment_id flag_key) config
          redis
      else redis

  -- what is read from the database, and then written to the cache
  unfoldable pub store_loaded :
      Bool → String → Result FlagConfiguration → Redis → Result FlagConfiguration × Redis
  unfolding write_cached
  store_loaded written flag_key (err e) redis = (err e, redis)
  store_loaded written flag_key (ok config) redis =
      (ok config, write_cached written flag_key config redis)

  unfoldable pub load_by :
      Option FlagConfiguration → Bool → String → Db → Redis → Result FlagConfiguration × Redis
  unfolding validate_configuration get_config_by_key store_loaded
  load_by (some payload) written flag_key db redis = (validate_configuration payload, redis)
  load_by none written flag_key db redis =
      store_loaded written flag_key (get_config_by_key rt project_id environment_id flag_key db)
        redis

  unfoldable pub load_configuration :
      Bool → Bool → String → Db → Redis → Result FlagConfiguration × Redis
  unfolding read_cached load_by
  load_configuration answers written flag_key db redis =
      load_by (read_cached answers flag_key redis) written flag_key db redis

  -- what `redis.mget` answers; `[None] * len(cache_keys)` where it fails
  unfoldable pub read_all : Bool → Redis → List String → List (Option FlagConfiguration)
  unfolding read_cached
  read_all answers redis = map (λ k. read_cached answers k redis)

  -- the loop over `zip(unique_keys, cached, strict=True)`: the hits, and the misses
  unfoldable pub take_hits :
      List String
      → List (Option FlagConfiguration)
      → List (String × FlagConfiguration)
      → Result (List (String × FlagConfiguration) × List String)
  unfolding validate_configuration set_entry
  take_hits [] [] configs = ok (configs, [])
  take_hits (k ∷ ks) (none ∷ cached) configs = do
    (found, misses) ← take_hits ks cached configs
    ok (found, k ∷ misses)
  take_hits (k ∷ ks) (some payload ∷ cached) configs = do
    config ← validate_configuration payload
    take_hits ks cached (set_entry k config configs)
  take_hits [] (o ∷ cached) configs = err value_error
  take_hits (k ∷ ks) [] configs = err value_error

  -- `configs.update(loaded)`
  unfoldable pub update_entries :
      List (String × FlagConfiguration)
      → List (String × FlagConfiguration)
      → List (String × FlagConfiguration)
  unfolding set_entry
  update_entries [] configs = configs
  update_entries ((k, config) ∷ loaded) configs = update_entries loaded (set_entry k config configs)

  -- The pipeline of writes. It is no transaction: `written` says which of them reach Redis.
  unfoldable pub write_all : (String → Bool) → List (String × FlagConfiguration) → Redis → Redis
  unfolding write_cached
  write_all written [] redis = redis
  write_all written ((k, config) ∷ loaded) redis =
      write_all written loaded (write_cached (written k) k config redis)

  -- the end of the batch: the keys that no lookup found
  unfoldable pub require_all :
      List String → List (String × FlagConfiguration) → Result (List (String × FlagConfiguration))
  require_all unique configs =
      let missing = sorted_texts (select_where (λ k. not (elem k (keys configs))) unique) in
      raise_if (is_nonempty missing) (flags_not_found missing) >> ok configs

  -- what follows the lookup of the misses
  unfoldable pub finish_batch :
      (String → Bool)
      → List String
      → List (String × FlagConfiguration)
      → Result (List (String × FlagConfiguration))
      → Redis
      → Result (List (String × FlagConfiguration)) × Redis
  unfolding update_entries write_all require_all
  finish_batch written unique configs (err e) redis = (err e, redis)
  finish_batch written unique configs (ok loaded) redis =
      (require_all unique (update_entries loaded configs), write_all written loaded redis)

  -- `if misses: ...`
  abbrev pub load_misses : List String → Db → Result (List (String × FlagConfiguration))
  load_misses [] db = ok []
  load_misses (k ∷ ks) db = get_configs_by_keys rt project_id environment_id (k ∷ ks) db

  unfoldable pub batch_by :
      (String → Bool)
      → List String
      → Db
      → Redis
      → Result (List (String × FlagConfiguration) × List String)
      → Result (List (String × FlagConfiguration)) × Redis
  unfolding get_configs_by_keys finish_batch
  batch_by written unique db redis (err e) = (err e, redis)
  batch_by written unique db redis (ok (configs, misses)) =
      finish_batch written unique configs (load_misses misses db) redis

  unfoldable pub load_configurations :
      Bool
      → (String → Bool)
      → List String
      → Db
      → Redis
      → Result (List (String × FlagConfiguration)) × Redis
  unfolding unique_keys read_all take_hits batch_by
  load_configurations answers written flag_keys db redis =
      let unique = unique_keys [] flag_keys in
      batch_by written unique db redis (take_hits unique (read_all answers redis unique) [])
