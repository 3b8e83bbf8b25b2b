-- ===== src/Cache/Coherence.antt =====
-- backend/app/services/cache.py: what `load_configuration` answers, against the database.
use cohort_switch.Prelude.{
  ℕ, ◌<◌, ◌≤◌, ◌≡◌, refl, sym, ap, ◌∙◌, subst, inl, inr, String, Option, none, some, Bool, true,
  false, ◌&&◌, List, [], ◌∷◌, ltb, ltb→lt, eq_iff, arith, Option-cases, All, map,
}
use cohort_switch.Prelude.Sort.{sorted}
use cohort_switch.Errors.{Result, ok, err, >>=-eq-ok}
use cohort_switch.Runtime.{Runtime}
use cohort_switch.Database.{Environment, FeatureFlag, FlagConfig}
use cohort_switch.Evaluation.Models.{
  FlagConfiguration, TargetingRule, RolloutAllocation, validate_configuration,
}
use cohort_switch.Flags.Building.Soundness.{validate_configuration-same}
use cohort_switch.Flags.Storage.{
  compile_configuration, rules_of, allocations_of, entries_of, engine_stage_of,
}
use cohort_switch.Flags.Store.Lists.{
  All-find_where, find_where-test, All-select_where, some-injective,
}
use cohort_switch.Flags.Tables.{Db, find_where, or_raise}
use cohort_switch.Flags.Lookup.{get_config_by_key, Loaded, has_key, loaded_rows, flag_not_found}
use cohort_switch.Cache.{
  Entry, Redis, is_at_key, redis_get, redis_set, redis_delete, config_cache_key, read_cached,
  write_cached, store_loaded, load_by, load_configuration,
}
use cohort_switch.Cache.Keys.{IsNaming, config_cache_key-injective}

abbrev assembled :
    Runtime
    → FeatureFlag
    → Environment
    → FlagConfig
    → List TargetingRule
    → List RolloutAllocation
    → FlagConfiguration
assembled rt flag environment config rules rollout = record {
  project_id = rt.uuid_str flag.project_id;
  environment_id = rt.uuid_str config.environment_id;
  environment_key = environment.key;
  flag_id = rt.uuid_str config.flag_id;
  flag_key = flag.key;
  flag_type = flag.flag_type;
  enabled = config.enabled;
  default_variation = config.default_variation_key;
  variations = entries_of [] config.variations;
  config_version = config.current_version;
  salt = config.salt;
  rules = rules;
  rollout = rollout;
  progressive_stages = map engine_stage_of config.progressive_stages;
}

-- What is compiled from the rows passes the validators again.
compile_configuration-validated :
    (rt : Runtime) (flag : FeatureFlag) (environment : Environment) (config : FlagConfig)
    {c : FlagConfiguration}
    → compile_configuration rt flag environment config ≡ ok c
    → validate_configuration c ≡ ok c
unfolding compile_configuration
compile_configuration-validated rt flag environment config {c} h =
    let (rules, h₁, r₁) = >>=-eq-ok (rules_of (sorted (λ item. item.priority) config.rules)) _ h in
    let (rollout, h₂, r₂) =
      >>=-eq-ok (allocations_of (sorted (λ item. item.end_bucket) config.rollouts)) _ r₁ in
    subst (λ d. validate_configuration d ≡ ok c)
      (validate_configuration-same (assembled rt flag environment config rules rollout) r₂) r₂

pub get_config_by_key-validated :
    (rt : Runtime) (db : Db) (p e : ℕ) (k : String) {c : FlagConfiguration}
    → get_config_by_key rt p e k db ≡ ok c
    → validate_configuration c ≡ ok c
unfolding get_config_by_key
get_config_by_key-validated rt db p e k h =
    let (l, h₁, r₁) =
      >>=-eq-ok
        (or_raise {A = Loaded} (find_where (has_key p e k) (loaded_rows db db.configs))
          flag_not_found)
        _ h in
    compile_configuration-validated rt l.flag l.environment l.config r₁

module _ (rt : Runtime) (now : ℕ) (db : Db) where
  -- While the entry is alive, it is what the database gives under its key.
  abbrev pub IsCurrent : Entry → Type 0
  IsCurrent entry =
      (p e : ℕ) (k : String)
      → entry.key ≡ config_cache_key rt p e k
      → now < entry.expires_at
      → get_config_by_key rt p e k db ≡ ok entry.payload

  abbrev pub IsCoherent : Redis → Type 0
  IsCoherent = All IsCurrent

  pub redis_get-current :
      (p e : ℕ) (k : String) (redis : Redis) (c : FlagConfiguration)
      → IsCoherent redis
      → redis_get now (config_cache_key rt p e k) redis ≡ some c
      → get_config_by_key rt p e k db ≡ ok c
  unfolding redis_get
  redis_get-current p e k redis c coherent h =
      let test = λ (x : Entry). is_at_key (config_cache_key rt p e k) x && ltb now x.expires_at in
      elim (Option-cases (find_where test redis)) [
        | inl away ↦ absurd (let h' = rw away at h in cc)
        | inr (entry, found) ↦
            let good = All-find_where IsCurrent test redis coherent found in
            let passed = find_where-test test redis found in
            let same = (eq_iff entry.key (config_cache_key rt p e k)).0 (ground arith) in
            let live = ltb→lt now entry.expires_at (ground arith) in
            good p e k same live ∙ ap ok (some-injective (rw found at h))
      ]

  pub read_cached-current :
      (answers : Bool) (ttl p e : ℕ) (k : String) (redis : Redis) (c : FlagConfiguration)
      → IsCoherent redis
      → read_cached rt now ttl p e answers k redis ≡ some c
      → get_config_by_key rt p e k db ≡ ok c
  unfolding read_cached
  read_cached-current true ttl p e k redis c coherent h = redis_get-current p e k redis c coherent h
  read_cached-current false ttl p e k redis c coherent h = absurd (cc)

  module _ (naming : IsNaming rt) (ttl p e : ℕ) where
    pub write_cached-IsCoherent :
        (written : Bool) (k : String) (c : FlagConfiguration) (redis : Redis)
        → IsCoherent redis
        → get_config_by_key rt p e k db ≡ ok c
        → IsCoherent (write_cached rt now ttl p e written k c redis)
    unfolding write_cached redis_set redis_delete
    write_cached-IsCoherent false k c redis coherent h = coherent
    write_cached-IsCoherent true k c redis coherent h = (
      λ p' e' k' same live.
          let (u, v, w) = config_cache_key-injective rt naming p p' e e' k k' same in
          subst (λ i. get_config_by_key rt i e' k' db ≡ ok c) u
            (subst (λ i. get_config_by_key rt p i k' db ≡ ok c) v
              (subst (λ s. get_config_by_key rt p e s db ≡ ok c) w h)),
      All-select_where IsCurrent _ redis coherent,
    )

    stored_loaded :
        (written : Bool) (k : String) (redis : Redis)
        → IsCoherent redis
        → (outcome : Result FlagConfiguration) → get_config_by_key rt p e k db ≡ outcome
        → ((store_loaded rt now ttl p e written k outcome redis).0 ≡ outcome)
          × IsCoherent (store_loaded rt now ttl p e written k outcome redis).1
    unfolding store_loaded
    stored_loaded written k redis coherent (err x) h = (refl, coherent)
    stored_loaded written k redis coherent (ok c) h =
        (refl, write_cached-IsCoherent written k c redis coherent h)

    loaded_by :
        (answers written : Bool) (k : String) (redis : Redis)
        → IsCoherent redis
        → (cached : Option FlagConfiguration) → read_cached rt now ttl p e answers k redis ≡ cached
        → ((load_by rt now ttl p e cached written k db redis).0 ≡ get_config_by_key rt p e k db)
          × IsCoherent (load_by rt now ttl p e cached written k db redis).1
    unfolding load_by
    loaded_by answers written k redis coherent none h =
        stored_loaded written k redis coherent (get_config_by_key rt p e k db) refl
    loaded_by answers written k redis coherent (some c) h =
        let good = read_cached-current answers ttl p e k redis c coherent h in
        (get_config_by_key-validated rt db p e k good ∙ sym good, coherent)

    -- While Redis holds only what the database gives, a load answers what the database gives, whether
    -- Redis answers or not and whether the write behind a miss reaches it or not, and Redis still holds
    -- only what the database gives, where the texts of ids are distinct and hold no `:`.
    pub load_configuration-IsCoherent :
        (answers written : Bool) (k : String) (redis : Redis)
        → IsCoherent redis
        → ((load_configuration rt now ttl p e answers written k db redis).0
            ≡ get_config_by_key rt p e k db)
          × IsCoherent (load_configuration rt now ttl p e answers written k db redis).1
    unfolding load_configuration
    load_configuration-IsCoherent answers written k redis coherent =
        loaded_by answers written k redis coherent (read_cached rt now ttl p e answers k redis) refl

-- What is current stays current as time goes by.
pub IsCoherent-later :
    (rt : Runtime) (now later : ℕ)
    → now ≤ later
    → (db : Db) (redis : Redis) → IsCoherent rt now db redis
    → IsCoherent rt later db redis
IsCoherent-later rt now later le db [] h = tt
IsCoherent-later rt now later le db (entry ∷ redis) h = (
  λ p e k same live. h.0 p e k same (omega (arith, le, live)),
  IsCoherent-later rt now later le db redis h.1,
)
