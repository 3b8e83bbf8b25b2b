-- ===== src/Management/Flags.antt =====
-- backend/app/api/management.py: the endpoints of the flags.
use cohort_switch.Prelude.{
  ℕ, ◌+◌, suc, String, Option, none, some, true, not, List, [], ◌∷◌, ◌++◌, ◌==◌, str_eq,
  is_nonempty, if◌then◌else◌,
}
use cohort_switch.Prelude.Sort.{sorted}
use mathlib.Core.List.{reverse}
use cohort_switch.Errors.{Result, ok, api_error, key_error, current_version, raise_if, ◌>>=◌, ◌>>◌}
use cohort_switch.Runtime.{Runtime}
use cohort_switch.Evaluation.Value.{Value, bool, str}
use cohort_switch.Evaluation.Models.{FlagConfiguration}
use cohort_switch.Schemas.{RuleInput, FlagCreate, FlagUpdate, FlagResponse}
use cohort_switch.Database.{Project, Environment, FeatureFlag, FlagConfig, FlagVersion}
use cohort_switch.Permissions.{flag_read, flag_write}
use cohort_switch.Access.{authorize_project, authorize_environment}
use cohort_switch.Flags.Storage.{compile_configuration, response}
use cohort_switch.Flags.Tables.{Db, find_where, select_where, update_where, or_raise, is_none, bump}
use cohort_switch.Flags.Lookup.{
  compile_row, flag_not_found, get_config_by_flag_environment, get_all_environment_configs,
  append_rule_update,
}
use cohort_switch.Flags.Store.{create_flag, update_flag, rollback_flag}
use cohort_switch.Cache.{Call}
use cohort_switch.Management.{
  Service, ScheduledChange, Request, tenants, actor, audit, set_revision, notify,
}

pub record RuleCreate : Type 0 where
  pub environment_id : ℕ
  pub expected_version : ℕ
  pub rule : RuleInput

pub record RollbackRequest : Type 0 where
  pub environment_id : ℕ
  pub expected_version : ℕ

pub record ScheduledChangeCreate : Type 0 where
  pub environment_id : ℕ
  pub expected_version : ℕ
  pub change_type : String
  pub payload : List (String × Value)
  pub activate_at : ℕ

-- `session.get(FeatureFlag, flag_id)`
abbrev pub get_row : ℕ → Db → Option FeatureFlag
get_row flag_id db = find_where (λ f. f.id == flag_id) db.flags

abbrev pub rule_action : RuleInput → String
rule_action rule = if is_nonempty rule.rollout then "rollout.changed" else "flag.updated"

-- `del` and `publish` say how the two calls of Redis end, once the rows are committed.
module _ (rt : Runtime) (del publish : Call) (r : Request) where
  -- the end of an endpoint that wrote a configuration: its revision, the commit, and the notice
  abbrev pub finish :
      ℕ → Environment → String → String → FlagResponse × Db → Service → FlagResponse × Service
  finish project_id environment flag_key event (result, db) s = (
    result,
    notify rt del publish project_id environment.id flag_key event result.current_version
        (environment.revision + 1)
        (record s { db = set_revision environment.id (environment.revision + 1) db }),
  )

  -- `salt` is what `secrets.token_hex(16)` draws.
  unfoldable pub create_feature_flag :
      String → ℕ → FlagCreate → Service → Result (FlagResponse × Service)
  unfolding authorize_project authorize_environment create_flag
  create_feature_flag salt project_id payload s = do
    (project, membership) ← authorize_project (tenants s) r.principal project_id flag_write
    (environment, owner, member) ←
        authorize_environment (tenants s) r.principal payload.environment_id flag_write
    (result, db) ← create_flag rt r.now project environment (actor r) salt payload s.db
    ok (
      result,
      notify rt del publish project.id environment.id result.key "flag.created"
          result.current_version (environment.revision + 1) (record s { db = db }),
    )

  unfoldable pub replace_flag_configuration :
      ℕ → FlagUpdate → Service → Result (FlagResponse × Service)
  unfolding authorize_project authorize_environment update_flag
  replace_flag_configuration flag_id payload s = do
    flag ← or_raise (get_row flag_id s.db) flag_not_found
    (project, membership) ← authorize_project (tenants s) r.principal flag.project_id flag_write
    (environment, owner, member) ←
        authorize_environment (tenants s) r.principal payload.environment_id flag_write
    written ←
        update_flag rt r.now project environment (actor r) flag payload "flag.updated" none s.db
    ok (finish project.id environment flag.key "flag.updated" written s)

  unfoldable pub add_targeting_rule : ℕ → RuleCreate → Service → Result (FlagResponse × Service)
  unfolding get_config_by_flag_environment authorize_project append_rule_update update_flag
  add_targeting_rule flag_id payload s = do
    config ← get_config_by_flag_environment flag_id payload.environment_id s.db
    (project, membership) ←
        authorize_project (tenants s) r.principal config.flag.project_id flag_write
    update_payload ← append_rule_update rt config payload.rule payload.expected_version
    written ←
        update_flag rt r.now project config.environment (actor r) config.flag update_payload
          (rule_action payload.rule) none s.db
    ok (finish project.id config.environment config.flag.key (rule_action payload.rule) written s)

  unfoldable pub rollback_feature_flag :
      ℕ → ℕ → RollbackRequest → Service → Result (FlagResponse × Service)
  unfolding authorize_project authorize_environment rollback_flag
  rollback_feature_flag flag_id version payload s = do
    flag ← or_raise (get_row flag_id s.db) flag_not_found
    (project, membership) ← authorize_project (tenants s) r.principal flag.project_id flag_write
    (environment, owner, member) ←
        authorize_environment (tenants s) r.principal payload.environment_id flag_write
    written ←
        rollback_flag rt r.now project environment (actor r) flag version payload.expected_version
          s.db
    ok (finish project.id environment flag.key "flag.rollback" written s)

  -- the rows of the flag's configurations
  abbrev pub config_rows : ℕ → Db → List FlagConfig
  config_rows flag_id db = select_where (λ c. c.flag_id == flag_id) db.configs

  -- `for config in config_rows: ... environment.revision += 1`
  unfoldable pub bump_all : List FlagConfig → List Environment → List Environment
  bump_all [] environments = environments
  bump_all (c ∷ configs) environments =
      bump_all configs (update_where (λ e. e.id == c.environment_id) bump environments)

  -- the notice of an archived flag, where the environment stands
  abbrev pub notify_gone : ℕ → String → ℕ → Option Environment → Service → Service
  notify_gone project_id flag_key version none s = s
  notify_gone project_id flag_key version (some environment) s =
      notify rt del publish project_id environment.id flag_key "flag.deleted" version
        environment.revision s

  -- and those of all its configurations
  unfoldable pub notify_all : ℕ → String → List FlagConfig → Service → Service
  notify_all project_id flag_key [] s = s
  notify_all project_id flag_key (c ∷ configs) s = notify_all project_id flag_key configs (
      notify_gone project_id flag_key c.current_version
        (find_where (λ e. e.id == c.environment_id) s.db.environments) s)

  -- the rows that archiving writes
  unfoldable pub write_archive : ℕ → FeatureFlag → Service → Db
  unfolding bump_all
  write_archive organization_id flag s =
      audit r organization_id "flag.deleted" "feature_flag" flag.id
        (("flag_key", str flag.key) ∷ ("archived", bool true) ∷ [])
        (record s.db {
          flags =
              update_where (λ f. f.id == flag.id) (λ f. record f { archived_at = some r.now })
                s.db.flags;
          environments = bump_all (config_rows flag.id s.db) s.db.environments;
        })

  unfoldable pub archive_flag : ℕ → Service → Result Service
  unfolding authorize_project write_archive notify_all
  archive_flag flag_id s = do
    flag ← or_raise (get_row flag_id s.db) flag_not_found
    raise_if (not (is_none flag.archived_at)) flag_not_found
    (project, membership) ← authorize_project (tenants s) r.principal flag.project_id flag_write
    ok (
        notify_all project.id flag.key (config_rows flag.id s.db)
          (record s { db = write_archive project.organization_id flag s }))

  -- `isoformat` is the text of the instant, and `read_lazily` what the session gives for
  -- `config.flag.project`, a relationship that no query has loaded, where its row is the given one: an
  -- async session may refuse the query.
  unfoldable pub schedule_change :
      (ℕ → String)
      → (Option Project → Result Project)
      → ℕ
      → ScheduledChangeCreate
      → Service
      → Result (ScheduledChange × Service)
  unfolding get_config_by_flag_environment authorize_project
  schedule_change isoformat read_lazily flag_id payload s = do
    config ← get_config_by_flag_environment flag_id payload.environment_id s.db
    granted ← authorize_project (tenants s) r.principal config.flag.project_id flag_write
    raise_if (not (config.config.current_version == payload.expected_version)) (
        api_error 409 "configuration_conflict"
          "The flag configuration was changed by another writer."
          (current_version (some config.config.current_version)))
    let scheduled : ScheduledChange = record {
      id = s.db.next_id;
      config_id = config.config.id;
      change_type = payload.change_type;
      payload = payload.payload;
      activate_at = payload.activate_at;
      applied_at = none;
      created_by_id = r.principal.user_id;
    }
    project ← read_lazily (find_where (λ p. p.id == config.flag.project_id) s.projects)
    ok (
      scheduled,
      record s {
        scheduled = s.scheduled ++ (scheduled ∷ []);
        db =
            audit r project.organization_id "flag.change_scheduled" "scheduled_change" scheduled.id
              (("change_type", str payload.change_type)
                ∷ ("activate_at", str (isoformat payload.activate_at))
                ∷ [])
              (record s.db { next_id = suc s.db.next_id });
      },
    )

-- The endpoints that only read. `rank` numbers the keys in the database's collation order.
module _ (rt : Runtime) (rank : String → ℕ) (r : Request) where
  -- `[_response(by_id[item.flag_id], item) for item in configs]`
  unfoldable pub responses :
      ℕ → List FeatureFlag → List FlagConfiguration → Result (List FlagResponse)
  unfolding response
  responses environment_id flags [] = ok []
  responses environment_id flags (item ∷ configs) = do
    flag ← or_raise (find_where (λ f. str_eq (rt.uuid_str f.id) item.flag_id) flags) key_error
    first ← response flag environment_id item
    others ← responses environment_id flags configs
    ok (first ∷ others)

  unfoldable pub list_flags : ℕ → ℕ → Service → Result (List FlagResponse)
  unfolding authorize_project authorize_environment get_all_environment_configs responses
  list_flags project_id environment_id s = do
    of_project ← authorize_project (tenants s) r.principal project_id flag_read
    of_environment ← authorize_environment (tenants s) r.principal environment_id flag_read
    configs ← get_all_environment_configs rt rank project_id environment_id s.db
    responses environment_id s.db.flags configs

  unfoldable pub get_flag : ℕ → ℕ → Service → Result FlagResponse
  unfolding get_config_by_flag_environment authorize_project compile_configuration response
  get_flag flag_id environment_id s = do
    config ← get_config_by_flag_environment flag_id environment_id s.db
    granted ← authorize_project (tenants s) r.principal config.flag.project_id flag_read
    compiled ← compile_row rt config
    response config.flag config.config.environment_id compiled

  -- the latest version first
  unfoldable pub flag_versions : ℕ → ℕ → Service → Result (List FlagVersion)
  unfolding get_config_by_flag_environment authorize_project sorted
  flag_versions flag_id environment_id s = do
    config ← get_config_by_flag_environment flag_id environment_id s.db
    granted ← authorize_project (tenants s) r.principal config.flag.project_id flag_read
    ok (
        reverse (
          sorted (λ v. v.version)
            (select_where (λ v. v.config_id == config.config.id) s.db.versions)))
