-- ===== src/Management/Export.antt =====
-- backend/app/api/management.py: the configuration of an environment, and its ETag.
use Prim.Native.String
use cohort_switch.Prelude.{
  ℕ, String, Option, none, some, Bool, true, false, not, ◌||◌, List, ◌==◌, str_eq, elem,
}
use cohort_switch.Prelude.Decimal.{decimal}
use cohort_switch.Errors.{Result, ok, api, raise_if, ◌>>=◌, ◌>>◌}
use cohort_switch.Runtime.{Runtime}
use cohort_switch.Evaluation.Models.{FlagConfiguration}
use cohort_switch.Database.{Environment}
use cohort_switch.Permissions.{flag_read}
use cohort_switch.Access.{differs, authorize_environment}
use cohort_switch.Flags.Tables.{find_where, or_raise}
use cohort_switch.Flags.Lookup.{get_all_environment_configs}
use cohort_switch.Management.{Service, Request, tenants}

pub record ConfigBundle : Type 0 where
  pub project_id : ℕ
  pub environment_id : ℕ
  pub revision : ℕ
  pub flags : List FlagConfiguration

-- A response with its ETag: 304, or the bundle.
pub data Exported : Type 0 where
  not_modified : String → Exported
  bundle : String → ConfigBundle → Exported

-- `f'"{environment.revision}"'`
unfoldable pub etag_of : ℕ → String
unfolding decimal
etag_of revision = Prim.Native.String.◌++◌ "\"" (Prim.Native.String.◌++◌ (decimal revision) "\"")

-- `request.headers.get("If-None-Match") == etag`
abbrev pub is_known : Option String → String → Bool
is_known none etag = false
is_known (some tag) etag = str_eq tag etag

-- the environment, for an SDK key of it and for anybody else who may read its flags
unfoldable pub exported_environment : Bool → Request → ℕ → ℕ → Service → Result Environment
unfolding authorize_environment
exported_environment true r project_id environment_id s = do
  raise_if
      (differs r.principal.project_id project_id
        || differs r.principal.environment_id environment_id
        || not (elem "flags:read" r.principal.scopes))
      (api 403 "insufficient_scope" "SDK key is not scoped to this environment.")
  or_raise (find_where (λ e. e.id == environment_id) s.db.environments)
      (api 404 "environment_not_found" "Environment was not found.")
exported_environment false r project_id environment_id s = do
  (environment, project, membership) ←
      authorize_environment (tenants s) r.principal environment_id flag_read
  ok environment

-- `rank` numbers the keys in the database's collation order.
module _ (rt : Runtime) (rank : String → ℕ) where
  -- what follows the tests, by whether the client knows the revision
  unfoldable pub export_by : Bool → ℕ → ℕ → Environment → Service → Result Exported
  unfolding etag_of get_all_environment_configs
  export_by true project_id environment_id environment s =
      ok (not_modified (etag_of environment.revision))
  export_by false project_id environment_id environment s = do
    configs ← get_all_environment_configs rt rank project_id environment_id s.db
    ok (
        bundle (etag_of environment.revision) (record {
          project_id = project_id;
          environment_id = environment_id;
          revision = environment.revision;
          flags = configs;
        }))

  unfoldable pub export_configuration : Request → Option String → ℕ → ℕ → Service → Result Exported
  unfolding exported_environment export_by etag_of
  export_configuration r if_none_match project_id environment_id s = do
    environment ← exported_environment (str_eq r.principal.kind "SDK") r project_id environment_id s
    raise_if (not (environment.project_id == project_id))
        (api 404 "environment_not_found" "Environment was not found.")
    export_by (is_known if_none_match (etag_of environment.revision)) project_id environment_id
        environment s
