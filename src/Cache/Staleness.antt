-- ===== src/Cache/Staleness.antt =====
-- backend/app/services/cache.py: how long an entry that the database has left behind is served.
use cohort_switch.Prelude.{
  ℕ, ◌+◌, ◌≤◌, ◌<◌, ◌≡◌, refl, ap, ◌∙◌, String, Option, none, some, Bool, true, false, ◌&&◌, List,
  [], ◌∷◌, ltb, eq_refl, arith, All,
}
use mathlib.Core.Option
use cohort_switch.Errors.{Result, ok, err}
use cohort_switch.Runtime.{Runtime}
use cohort_switch.Evaluation.Models.{FlagConfiguration}
use cohort_switch.Flags.Store.Lists.{All-select_where}
use cohort_switch.Flags.Tables.{Db, find_where}
use cohort_switch.Flags.Lookup.{get_config_by_key}
use cohort_switch.Cache.Coherence.{get_config_by_key-validated}
use cohort_switch.Cache.{
  Entry, Redis, Call, Event, answered, lost, refused, is_at_key, redis_get, redis_set, redis_delete,
  config_cache_key, read_cached, write_cached, store_loaded, load_by, load_configuration, write_all,
  finish_batch, batch_by, load_misses, take_hits, read_all, unique_keys, load_configurations,
  invalidate_and_publish,
}

lt→ltb : (a b : ℕ) → a < b → ltb a b ≡ true
lt→ltb a b h = ground arith

expired_test : (b : Bool) (now end : ℕ) → end ≤ now → (b && ltb now end) ≡ false
expired_test true now end h = ground arith
expired_test false now end h = refl

module _ (rt : Runtime) (ttl : ℕ) where
  -- The caches that are reached at a time. The rows differ from call to call as they please, and a
  -- load may be slow: `late` is the write behind a miss of a load that read any rows at any time.
  pub data Reached : ℕ → Redis → Type 0 where
    empty : (t : ℕ) → Reached t []
    wait : {t t' : ℕ} {r : Redis} → Reached t r → t ≤ t' → Reached t' r
    load :
        {t : ℕ} {r : Redis} (p e : ℕ) (answers written : Bool) (k : String) (db : Db)
        → Reached t r
        → Reached t (load_configuration rt t ttl p e answers written k db r).1
    late :
        {t : ℕ} {r : Redis} (p e : ℕ) (written : Bool) (k : String) (c : FlagConfiguration)
        → Reached t r
        → Reached t (write_cached rt t ttl p e written k c r)
    load_batch :
        {t : ℕ} {r : Redis} (p e : ℕ) (answers : Bool) (written : String → Bool) (ks : List String)
        (db : Db)
        → Reached t r
        → Reached t (load_configurations rt t ttl p e answers written ks db r).1
    invalidate :
        {t : ℕ} {r : Redis} (p e : ℕ) (del publish : Call) (k event : String) (version revision : ℕ)
        (events : List Event)
        → Reached t r
        → Reached t (invalidate_and_publish rt p e del publish k event version revision r events).0

  abbrev IsBounded : ℕ → Redis → Type 0
  IsBounded t = All (λ (x : Entry). x.expires_at ≤ t + ttl)

  module _ (t p e : ℕ) where
    write_cached-IsBounded :
        (written : Bool) (k : String) (c : FlagConfiguration) (r : Redis)
        → IsBounded t r
        → IsBounded t (write_cached rt t ttl p e written k c r)
    unfolding write_cached redis_set redis_delete
    write_cached-IsBounded false k c r h = h
    write_cached-IsBounded true k c r h = (omega arith, All-select_where _ _ r h)

    stored-IsBounded :
        (written : Bool) (k : String) (outcome : Result FlagConfiguration) (r : Redis)
        → IsBounded t r
        → IsBounded t (store_loaded rt t ttl p e written k outcome r).1
    unfolding store_loaded
    stored-IsBounded written k (err x) r h = h
    stored-IsBounded written k (ok c) r h = write_cached-IsBounded written k c r h

    loaded-IsBounded :
        (cached : Option FlagConfiguration) (written : Bool) (k : String) (db : Db) (r : Redis)
        → IsBounded t r
        → IsBounded t (load_by rt t ttl p e cached written k db r).1
    unfolding load_by
    loaded-IsBounded none written k db r h =
        stored-IsBounded written k (get_config_by_key rt p e k db) r h
    loaded-IsBounded (some c) written k db r h = h

    written-IsBounded :
        (written : String → Bool) (loaded : List (String × FlagConfiguration)) (r : Redis)
        → IsBounded t r
        → IsBounded t (write_all rt t ttl p e written loaded r)
    unfolding write_all
    written-IsBounded written [] r h = h
    written-IsBounded written ((k, c) ∷ loaded) r h =
        written-IsBounded written loaded (write_cached rt t ttl p e (written k) k c r)
          (write_cached-IsBounded (written k) k c r h)

    finished-IsBounded :
        (written : String → Bool) (unique : List String)
        (configs : List (String × FlagConfiguration))
        (loaded : Result (List (String × FlagConfiguration))) (r : Redis)
        → IsBounded t r
        → IsBounded t (finish_batch rt t ttl p e written unique configs loaded r).1
    unfolding finish_batch
    finished-IsBounded written unique configs (err x) r h = h
    finished-IsBounded written unique configs (ok loaded) r h = written-IsBounded written loaded r h

    batch-IsBounded :
        (written : String → Bool) (unique : List String) (db : Db) (r : Redis)
        (hits : Result (List (String × FlagConfiguration) × List String))
        → IsBounded t r
        → IsBounded t (batch_by rt t ttl p e written unique db r hits).1
    unfolding batch_by
    batch-IsBounded written unique db r (err x) h = h
    batch-IsBounded written unique db r (ok (configs, misses)) h =
        finished-IsBounded written unique configs (load_misses rt t ttl p e misses db) r h

    invalidated-IsBounded :
        (del publish : Call) (k event : String) (version revision : ℕ) (r : Redis)
        (events : List Event)
        → IsBounded t r
        → IsBounded t
            (invalidate_and_publish rt p e del publish k event version revision r events).0
    unfolding invalidate_and_publish redis_delete
    invalidated-IsBounded answered publish k event version revision r events h =
        All-select_where _ _ r h
    invalidated-IsBounded lost publish k event version revision r events h =
        All-select_where _ _ r h
    invalidated-IsBounded refused publish k event version revision r events h = h

  later-IsBounded : (t t' : ℕ) → t ≤ t' → (r : Redis) → IsBounded t r → IsBounded t' r
  later-IsBounded t t' le [] h = tt
  later-IsBounded t t' le (x ∷ r) h = (omega (arith, h.0), later-IsBounded t t' le r h.1)

  Reached-IsBounded : {t : ℕ} {r : Redis} → Reached t r → IsBounded t r
  unfolding load_configuration load_configurations
  Reached-IsBounded (empty t) = tt
  Reached-IsBounded (wait {t} {t'} {r} before le) =
      later-IsBounded t t' le r (Reached-IsBounded before)
  Reached-IsBounded (load {t} {r} p e answers written k db before) =
      loaded-IsBounded t p e (read_cached rt t ttl p e answers k r) written k db r
        (Reached-IsBounded before)
  Reached-IsBounded (late {t} {r} p e written k c before) =
      write_cached-IsBounded t p e written k c r (Reached-IsBounded before)
  Reached-IsBounded (load_batch {t} {r} p e answers written ks db before) =
      batch-IsBounded t p e written (unique_keys [] ks) db r
        (take_hits rt t ttl p e (unique_keys [] ks)
          (read_all rt t ttl p e answers r (unique_keys [] ks)) [])
        (Reached-IsBounded before)
  Reached-IsBounded (invalidate {t} {r} p e del publish k event version revision events before) =
      invalidated-IsBounded t p e del publish k event version revision r events
        (Reached-IsBounded before)

  -- Nothing that is over is found.
  find_where-expired :
      (now : ℕ) (key : String) (r : Redis)
      → All (λ (x : Entry). x.expires_at ≤ now) r
      → find_where (λ x. is_at_key key x && ltb now x.expires_at) r ≡ none
  find_where-expired now key [] h = refl
  find_where-expired now key (x ∷ r) h =
      rw (expired_test (is_at_key key x) now x.expires_at h.0) (find_where-expired now key r h.1)

  module _ (now p e : ℕ) where
    read_cached-expired :
        (answers : Bool) (k : String) (r : Redis)
        → All (λ (x : Entry). x.expires_at ≤ now) r
        → read_cached rt now ttl p e answers k r ≡ none
    unfolding read_cached redis_get
    read_cached-expired true k r h =
        ap (Option.map (λ (x : Entry). x.payload))
          (find_where-expired now (config_cache_key rt p e k) r h)
    read_cached-expired false k r h = refl

    store_loaded_answer :
        (written : Bool) (k : String) (outcome : Result FlagConfiguration) (r : Redis)
        → (store_loaded rt now ttl p e written k outcome r).0 ≡ outcome
    unfolding store_loaded
    store_loaded_answer written k (err x) r = refl
    store_loaded_answer written k (ok c) r = refl

  entries_expired :
      (t now : ℕ)
      → t + ttl ≤ now
      → (r : Redis) → IsBounded t r
      → All (λ (x : Entry). x.expires_at ≤ now) r
  entries_expired t now le [] h = tt
  entries_expired t now le (x ∷ r) h = (omega (arith, h.0), entries_expired t now le r h.1)

  -- Whatever loads, batches, slow writes and invalidations came before, and however they ended, a load
  -- that comes at least the time to live after the last of them answers what the database gives.
  pub load_configuration_settled :
      {t : ℕ} {r : Redis}
      → Reached t r
      → (now : ℕ) → t + ttl ≤ now
      → (p e : ℕ) (answers written : Bool) (k : String) (db : Db)
      → (load_configuration rt now ttl p e answers written k db r).0 ≡ get_config_by_key rt p e k db
  unfolding load_configuration load_by
  load_configuration_settled {t} {r} before now le p e answers written k db =
      let gone =
        read_cached-expired now p e answers k r
          (entries_expired t now le r (Reached-IsBounded before)) in
      ap (λ o. (load_by rt now ttl p e o written k db r).0) gone
      ∙ store_loaded_answer now p e written k (get_config_by_key rt p e k db) r

  read_cached-write_cached :
      (now t p e : ℕ) (k : String) (c : FlagConfiguration) (r : Redis)
      → now < t + ttl
      → read_cached rt now ttl p e true k (write_cached rt t ttl p e true k c r) ≡ some c
  unfolding read_cached redis_get write_cached redis_set
  read_cached-write_cached now t p e k c r lt =
      rw (eq_refl (config_cache_key rt p e k), lt→ltb now (t + ttl) lt) refl

  -- A load that read the rows before a write, and whose write to Redis comes after the invalidation
  -- of that write, leaves what it read to be served until it expires.
  pub load_configuration_overtaken :
      (p e : ℕ) (k : String) (before after : Db) (c : FlagConfiguration) (r : Redis)
      → get_config_by_key rt p e k before ≡ ok c
      → (t : ℕ) (event : String) (version revision : ℕ) (events : List Event) → (now : ℕ)
      → now < t + ttl
      → (load_configuration rt now ttl p e true true k after (
          write_cached rt t ttl p e true k c
            (invalidate_and_publish rt p e answered answered k event version revision r
              events).0)).0
        ≡ ok c
  unfolding load_configuration load_by
  load_configuration_overtaken p e k before after c r h t event version revision events now lt =
      let cleared =
        (invalidate_and_publish rt p e answered answered k event version revision r events).0 in
      ap
        (λ o.
          (load_by rt now ttl p e o true k after (write_cached rt t ttl p e true k c cleared)).0)
        (read_cached-write_cached now t p e k c cleared lt)
      ∙ get_config_by_key-validated rt before p e k h
