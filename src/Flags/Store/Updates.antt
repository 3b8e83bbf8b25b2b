-- ===== src/Flags/Store/Updates.antt =====
-- What an update that returned has tested and written.
use cohort_switch.Prelude.{ℕ, ◌+◌, ◌≡◌, sym, ap, true, not, String, Option, some, any}
use mathlib.Core.Option
use cohort_switch.Errors.{ok, ok-injective, api, raise_if, >>=-eq-ok, raise_if-eq-ok}
use cohort_switch.Runtime.{Runtime}
use cohort_switch.Schemas.{FlagUpdate, FlagResponse}
use cohort_switch.Evaluation.Models.{FlagConfiguration}
use cohort_switch.Evaluation.Models.Soundness.{of_not-false}
use cohort_switch.Database.{Project, Environment, FeatureFlag, FlagConfig}
use cohort_switch.Flags.Building.{build_configuration, input_of_update}
use cohort_switch.Flags.Storage.{response}
use cohort_switch.Flags.Tables.{Db, Actor, find_where, or_raise, is_none, serves_pair, is_at}
use cohort_switch.Flags.Store.{write_update, update_flag}
use cohort_switch.Flags.Store.Lists.{or_raise-eq-ok}

module _ (rt : Runtime) (now : ℕ) (project : Project) (environment : Environment) (actor : Actor)
    (flag : FeatureFlag) (payload : FlagUpdate) (action : String) (source : Option ℕ)
    (db : Db) where
  pub record HasUpdated (db' : Db) : Type 0 where
    pub config : FlagConfig
    pub compiled : FlagConfiguration
    pub found : find_where (serves_pair flag.id environment.id) db.configs ≡ some config
    pub built :
        build_configuration rt project.id environment flag
          (input_of_update payload)
          (payload.expected_version + 1)
          config.salt
        ≡ ok compiled
    pub matched : any (is_at config.id payload.expected_version) db.configs ≡ true
    pub written :
        db'
        ≡ write_update rt now project environment actor flag config payload compiled action source
            db

  pub update_flag-HasUpdated :
      (answer : FlagResponse) (db' : Db)
      → update_flag rt now project environment actor flag payload action source db
        ≡ ok (answer, db')
      → HasUpdated db'
  unfolding update_flag
  update_flag-HasUpdated answer db' h =
      let missing = api 404 "flag_not_found" "Feature flag was not found." in
      let named = record flag {
        name = Option.get_or payload.name flag.name;
        description = Option.get_or payload.description flag.description;
      } in
      let (config, h₁, r₁) =
        >>=-eq-ok (or_raise (find_where (serves_pair flag.id environment.id) db.configs) missing) _
          h in
      let (u₂, h₂, r₂) = >>=-eq-ok (raise_if (not (is_none flag.archived_at)) missing) _ r₁ in
      let (compiled, h₃, r₃) =
        >>=-eq-ok
          (build_configuration rt project.id environment flag (input_of_update payload)
            (payload.expected_version + 1) config.salt)
          _ r₂ in
      let (u₄, h₄, r₄) =
        >>=-eq-ok (raise_if (not (any (is_at config.id payload.expected_version) db.configs)) _) _
          r₃ in
      let (answer', h₅, r₅) = >>=-eq-ok (response named environment.id compiled) _ r₄ in
      record {
        config = config;
        compiled = compiled;
        found = or_raise-eq-ok _ missing h₁;
        built = h₃;
        matched = of_not-false _ (raise_if-eq-ok _ _ h₄);
        written = sym (ap (λ p. p.1) (ok-injective r₅));
      }
