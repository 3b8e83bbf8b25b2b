-- ===== src/Flags/Lookup.antt =====
-- backend/app/services/flags.py: the lookups of configurations, and `append_rule_update`.
pub mod Dicts
pub mod Keys
use cohort_switch.Prelude.{
  ℕ, String, Option, none, some, Bool, not, ◌&&◌, List, [], ◌∷◌, ◌++◌, ◌==◌, str_eq, elem, length,
  map,
}
use cohort_switch.Prelude.Sort.{sorted}
use cohort_switch.Errors.{Error, Result, ok, err, api, raise_if, ◌>>=◌, ◌>>◌}
use cohort_switch.Runtime.{Runtime}
use cohort_switch.Schemas.{RuleInput, FlagUpdate}
use cohort_switch.Evaluation.Models.{FlagConfiguration}
use cohort_switch.Database.{Environment, FeatureFlag, FlagConfig}
use cohort_switch.Flags.Building.{set_entry, update_from_configuration}
use cohort_switch.Flags.Storage.{compile_configuration}
use cohort_switch.Flags.Tables.{Db, find_where, select_where, or_raise, is_none, serves_pair}

-- A row of a configuration with what `_loader_options` loads beside it.
pub record Loaded : Type 0 where
  pub config : FlagConfig
  pub flag : FeatureFlag
  pub environment : Environment

-- the rows that two foreign keys name
abbrev pub load_with : FlagConfig → Option FeatureFlag → Option Environment → Option Loaded
load_with c (some f) (some e) = some (record { config = c; flag = f; environment = e })
load_with c _ _ = none

abbrev pub load_row : Db → FlagConfig → Option Loaded
load_row db c =
    load_with c (find_where (λ f. f.id == c.flag_id) db.flags)
      (find_where (λ e. e.id == c.environment_id) db.environments)

abbrev pub add_row : Option Loaded → List Loaded → List Loaded
add_row none rows = rows
add_row (some l) rows = l ∷ rows

-- The configurations with their rows. Foreign keys that are not null leave none of them out.
abbrev pub loaded_rows : Db → List FlagConfig → List Loaded
loaded_rows db [] = []
loaded_rows db (c ∷ cs) = add_row (load_row db c) (loaded_rows db cs)

abbrev pub flag_not_found : Error
flag_not_found = api 404 "flag_not_found" "Feature flag was not found."

abbrev pub is_row_of : ℕ → ℕ → Loaded → Bool
is_row_of flag_id environment_id l = serves_pair flag_id environment_id l.config

unfoldable pub get_config_by_flag_environment : ℕ → ℕ → Db → Result Loaded
get_config_by_flag_environment flag_id environment_id db = do
  config ←
      or_raise (find_where (is_row_of flag_id environment_id) (loaded_rows db db.configs))
        flag_not_found
  raise_if (not (is_none config.flag.archived_at)) flag_not_found
  ok config

-- the WHERE clause that the lookups share: of the project and the environment, and not archived
abbrev pub is_live : ℕ → ℕ → Loaded → Bool
is_live project_id environment_id l =
    l.flag.project_id == project_id
    && is_none l.flag.archived_at
    && l.config.environment_id == environment_id

abbrev pub has_key : ℕ → ℕ → String → Loaded → Bool
has_key project_id environment_id flag_key l =
    is_live project_id environment_id l && str_eq l.flag.key flag_key

module _ (rt : Runtime) where
  abbrev pub compile_row : Loaded → Result FlagConfiguration
  compile_row l = compile_configuration rt l.flag l.environment l.config

  unfoldable pub get_config_by_key : ℕ → ℕ → String → Db → Result FlagConfiguration
  unfolding compile_configuration
  get_config_by_key project_id environment_id flag_key db = do
    config ←
        or_raise
          (find_where (has_key project_id environment_id flag_key) (loaded_rows db db.configs))
          flag_not_found
    compile_row config

  -- `{config.flag.key: compile_configuration(config) for config in ...}`
  unfoldable pub compile_into :
      List (String × FlagConfiguration) → List Loaded → Result (List (String × FlagConfiguration))
  unfolding set_entry compile_configuration
  compile_into configs [] = ok configs
  compile_into configs (l ∷ rows) = do
    compiled ← compile_row l
    compile_into (set_entry l.flag.key compiled configs) rows

  unfoldable pub get_configs_by_keys :
      ℕ → ℕ → List String → Db → Result (List (String × FlagConfiguration))
  unfolding compile_into
  get_configs_by_keys project_id environment_id flag_keys db = compile_into [] (
      select_where (λ l. is_live project_id environment_id l && elem l.flag.key flag_keys)
        (loaded_rows db db.configs))

  -- `[compile_configuration(config) for config in ...]`
  unfoldable pub compile_all : List Loaded → Result (List FlagConfiguration)
  unfolding compile_configuration
  compile_all [] = ok []
  compile_all (l ∷ rows) = do
    compiled ← compile_row l
    others ← compile_all rows
    ok (compiled ∷ others)

  -- `rank` numbers the keys in the database's collation order.
  unfoldable pub get_all_environment_configs :
      (String → ℕ) → ℕ → ℕ → Db → Result (List FlagConfiguration)
  unfolding compile_all
  get_all_environment_configs rank project_id environment_id db = compile_all (
      sorted (λ l. rank l.flag.key)
        (select_where (is_live project_id environment_id) (loaded_rows db db.configs)))

  unfoldable pub append_rule_update : Loaded → RuleInput → ℕ → Result FlagUpdate
  unfolding compile_configuration update_from_configuration
  append_rule_update config rule expected_version = do
    compiled ← compile_row config
    payload ← update_from_configuration compiled config.config.environment_id expected_version
    ok (record payload { rules = payload.rules ++ (rule ∷ []) })
