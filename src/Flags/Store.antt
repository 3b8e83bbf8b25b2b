-- ===== src/Flags/Store.antt =====
-- backend/app/services/flags.py: `create_flag`, `update_flag` and `rollback_flag`, as transactions on
-- the rows. An exception leaves the endpoint before its commit, so an error has no rows of its own.
pub mod Lists
pub mod History
pub mod Updates
pub mod Invariants
pub mod Conflicts
pub mod Reachable
mod Tests
use cohort_switch.Prelude.{
  ℕ, ◌+◌, suc, String, Option, none, some, Bool, true, false, not, ◌&&◌, ◌||◌, List, [], ◌∷◌, ◌++◌,
  ◌==◌, any, str_eq, if◌then◌else◌,
}
use mathlib.Core.Option
use cohort_switch.Prelude.Int.{pos}
use cohort_switch.Errors.{
  Error, Result, ok, err, api, api_error, current_version, raise_if, ◌>>=◌, ◌>>◌,
}
use cohort_switch.Runtime.{Runtime}
use cohort_switch.Schemas.{FlagCreate, FlagUpdate, FlagResponse}
use cohort_switch.Evaluation.Value.{Value, str, int}
use cohort_switch.Evaluation.Models.{FlagConfiguration, validate_configuration}
use cohort_switch.Database.{Project, Environment, FeatureFlag, FlagConfig, FlagVersion, AuditEvent}
use cohort_switch.Flags.Building.{
  ConfigInput, build_configuration, input_of_update, update_from_configuration,
}
use cohort_switch.Flags.Storage.{delete_children, persist_children, response}
use cohort_switch.Flags.Tables.{
  Db, Actor, update_where, find_where, is_none, or_raise, serves_pair, is_at, record_audit,
  source_entry, bump,
}

-- The row of the configuration, after the update and with its new children.
unfoldable pub rewrite_row : FlagUpdate → FlagConfiguration → FlagConfig → FlagConfig
unfolding delete_children persist_children
rewrite_row payload compiled c =
    persist_children
      (delete_children (record c {
        enabled = payload.enabled;
        default_variation_key = payload.default_variation;
        current_version = payload.expected_version + 1;
      }))
      compiled

module _ (rt : Runtime) (now : ℕ) (project : Project) (environment : Environment)
    (actor : Actor) where
  -- the rows that `update_flag` writes once the version has matched
  unfoldable pub write_update :
      FeatureFlag → FlagConfig → FlagUpdate → FlagConfiguration → String → Option ℕ → Db → Db
  unfolding rewrite_row record_audit
  write_update flag config payload compiled action source_version db =
      let new_version = payload.expected_version + 1 in
      record db {
        configs =
            update_where (is_at config.id payload.expected_version) (rewrite_row payload compiled)
              db.configs;
        flags =
            update_where (λ f. f.id == flag.id)
              (λ f. record f {
                name = Option.get_or payload.name f.name;
                description = Option.get_or payload.description f.description;
              })
              db.flags;
        versions =
            db.versions
            ++ (record {
              config_id = config.id;
              version = new_version;
              snapshot = compiled;
              created_at = now;
              created_by_id = actor.user_id;
              source_version = source_version;
            }
                ∷ []);
        environments =
            update_where (λ e. e.id == environment.id) (λ e. bump (bump e)) db.environments;
        audits =
            record_audit now project.organization_id action "feature_flag" flag.id actor
              (("flag_key", str flag.key)
                ∷ ("environment_id", str (rt.uuid_str environment.id))
                ∷ ("version", int (pos new_version))
                ∷ source_entry source_version)
              db.audits;
      }

  unfoldable pub update_flag :
      FeatureFlag → FlagUpdate → String → Option ℕ → Db → Result (FlagResponse × Db)
  unfolding build_configuration write_update response
  update_flag flag payload action source_version db = do
    config ←
        or_raise (find_where (serves_pair flag.id environment.id) db.configs)
          (api 404 "flag_not_found" "Feature flag was not found.")
    raise_if (not (is_none flag.archived_at))
        (api 404 "flag_not_found" "Feature flag was not found.")
    compiled ←
        build_configuration rt project.id environment flag (input_of_update payload)
          (payload.expected_version + 1) config.salt
    raise_if (not (any (is_at config.id payload.expected_version) db.configs)) (
        api_error 409 "configuration_conflict"
          "The flag configuration was changed by another writer."
          (current_version
            (Option.map (λ c. c.current_version) (find_where (λ c. c.id == config.id) db.configs))))
    answer ←
        response
          (record flag {
            name = Option.get_or payload.name flag.name;
            description = Option.get_or payload.description flag.description;
          })
          environment.id compiled
    ok (answer, write_update flag config payload compiled action source_version db)

  -- the two SELECTs of a rollback; no version belongs to a configuration that is missing
  abbrev pub find_version : FeatureFlag → ℕ → Db → Option FlagVersion
  find_version flag target_version db =
      elim (find_where (serves_pair flag.id environment.id) db.configs) [
        | none ↦ none
        | some config ↦
            find_where (λ v. v.config_id == config.id && v.version == target_version) db.versions
      ]

  unfoldable pub rollback_flag : FeatureFlag → ℕ → ℕ → Db → Result (FlagResponse × Db)
  unfolding validate_configuration update_from_configuration update_flag
  rollback_flag flag target_version expected_version db = do
    version ←
        or_raise (find_version flag target_version db)
          (api 404 "version_not_found" "Flag version was not found.")
    old ← validate_configuration version.snapshot
    payload ← update_from_configuration old environment.id expected_version
    update_flag flag payload "flag.rollback" (some target_version) db

  -- The flag that `create_flag` adds, and the configuration of its first version.
  abbrev pub new_flag : FlagCreate → Db → FeatureFlag
  new_flag payload db = record {
    id = db.next_id;
    project_id = project.id;
    key = payload.key;
    name = payload.name;
    description = payload.description;
    flag_type = payload.flag_type;
    archived_at = none;
  }

  abbrev pub input_of_create : FlagCreate → ConfigInput
  input_of_create p = record {
    enabled = p.enabled;
    default_variation = p.default_variation;
    variations = p.variations;
    rules = p.rules;
    rollout = p.rollout;
    progressive_stages = p.progressive_stages;
  }

  abbrev pub first_row : FeatureFlag → String → FlagCreate → Db → FlagConfig
  first_row flag salt payload db = record {
    id = suc db.next_id;
    flag_id = flag.id;
    environment_id = environment.id;
    enabled = payload.enabled;
    default_variation_key = payload.default_variation;
    current_version = 1;
    salt = salt;
    variations = [];
    rules = [];
    rollouts = [];
    progressive_stages = [];
  }

  unfoldable pub write_create : FeatureFlag → String → FlagCreate → FlagConfiguration → Db → Db
  unfolding persist_children record_audit
  write_create flag salt payload compiled db =
      let config_id = suc db.next_id in
      record db {
        next_id = suc config_id;
        flags = db.flags ++ (flag ∷ []);
        configs = db.configs ++ (persist_children (first_row flag salt payload db) compiled ∷ []);
        versions =
            db.versions
            ++ (record {
              config_id = config_id;
              version = 1;
              snapshot = compiled;
              created_at = now;
              created_by_id = actor.user_id;
              source_version = none;
            }
                ∷ []);
        environments = update_where (λ e. e.id == environment.id) bump db.environments;
        audits =
            record_audit now project.organization_id "flag.created" "feature_flag" flag.id actor
              (("flag_key", str flag.key)
                ∷ ("environment_id", str (rt.uuid_str environment.id))
                ∷ ("version", int (pos 1))
                ∷ [])
              db.audits;
      }

  -- `salt` is what `secrets.token_hex(16)` draws.
  unfoldable pub create_flag : String → FlagCreate → Db → Result (FlagResponse × Db)
  unfolding build_configuration write_create response
  create_flag salt payload db = do
    raise_if (not (environment.project_id == project.id))
        (api 404 "environment_not_found" "Environment was not found.")
    raise_if (any (λ f. f.project_id == project.id && str_eq f.key payload.key) db.flags)
        (api 409 "flag_key_exists" "A flag with this immutable key already exists.")
    let flag = new_flag payload db
    compiled ← build_configuration rt project.id environment flag (input_of_create payload) 1 salt
    answer ← response flag environment.id compiled
    ok (answer, write_create flag salt payload compiled db)
