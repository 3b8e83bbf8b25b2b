-- ===== src/Management/Revisions.antt =====
-- backend/app/api/management.py: the revision of an environment, across the endpoints that write.
use cohort_switch.Prelude.{
  ℕ, ◌+◌, ◌≡◌, refl, sym, ap, ◌∙◌, subst, String, Option, none, some, true, List, arith, ◌==◌,
}
use cohort_switch.Errors.{ok, api, raise_if, ok-injective, >>=-eq-ok}
use cohort_switch.Runtime.{Runtime}
use cohort_switch.Evaluation.Models.{validate_configuration}
use cohort_switch.Schemas.{FlagUpdate, FlagResponse}
use cohort_switch.Database.{Environment, Project, FeatureFlag, FlagVersion}
use cohort_switch.Permissions.{Permission, flag_write}
use cohort_switch.Access.{
  Principal, Tenants, is_bound_elsewhere, authorize_project, authorize_environment,
}
use cohort_switch.Flags.Building.{update_from_configuration}
use cohort_switch.Flags.Tables.{Db, Actor, find_where, update_where, or_raise, bump}
use cohort_switch.Flags.Lookup.{flag_not_found}
use cohort_switch.Flags.Store.{update_flag, rollback_flag, write_update, find_version}
use cohort_switch.Flags.Store.Lists.{
  find_where-test, find_where-update_where, or_raise-eq-ok, some-injective,
}
use cohort_switch.Flags.Store.Updates.{update_flag-HasUpdated}
use cohort_switch.Cache.{Call}
use cohort_switch.Management.{Service, Request, tenants, actor}
use cohort_switch.Management.Flags.{
  RollbackRequest, get_row, finish, replace_flag_configuration, rollback_feature_flag,
}

-- The environment as it stands.
abbrev pub environment_at : ℕ → Db → Option Environment
environment_at environment_id db = find_where (λ e. e.id == environment_id) db.environments

updated_environment :
    (environment_id id : ℕ) (f : Environment → Environment)
    → ((e : Environment) → (f e).id ≡ e.id)
    → (environments : List Environment) {e : Environment}
    → find_where (λ x. x.id == environment_id) environments ≡ some e
    → id ≡ environment_id
    → find_where (λ x. x.id == environment_id) (update_where (λ x. x.id == id) f environments)
      ≡ some (f e)
updated_environment environment_id id f kept environments {e} found same =
    let hit = find_where-test (λ (x : Environment). x.id == environment_id) environments found in
    let chosen : (e.id == id) ≡ true = subst (λ i. (e.id == i) ≡ true) (sym same) hit in
    find_where-update_where (λ x. x.id == environment_id) (λ x. x.id == id) f
      (λ x. ap (λ i. i == environment_id) (kept x)) environments found
    ∙ rw chosen refl

pub authorize_environment-found :
    (t : Tenants) (principal : Principal) (environment_id : ℕ) (permission : Permission)
    {answer : Environment × Project × _}
    → authorize_environment t principal environment_id permission ≡ ok answer
    → find_where (λ e. e.id == environment_id) t.environments ≡ some answer.0
unfolding authorize_environment
authorize_environment-found t principal environment_id permission h =
    let missing = api 404 "environment_not_found" "Environment was not found." in
    let (e, h₁, r₁) =
      >>=-eq-ok (or_raise (find_where (λ e. e.id == environment_id) t.environments) missing) _ h in
    let (u, h₂, r₂) =
      >>=-eq-ok (raise_if (is_bound_elsewhere principal.environment_id environment_id) missing) _
        r₁ in
    let (granted, h₃, r₃) =
      >>=-eq-ok (authorize_project t principal e.project_id permission) _ r₂ in
    or_raise-eq-ok _ missing h₁ ∙ ap (λ a. some a.0) (ok-injective r₃)

-- An update that returns leaves the environment with twice its revision's step.
update_flag-environment :
    (rt : Runtime) (now : ℕ) (project : Project) (environment : Environment) (who : Actor)
    (flag : FeatureFlag) (payload : FlagUpdate) (action : String) (source : Option ℕ) (db : Db)
    {answer : FlagResponse} {db' : Db}
    → update_flag rt now project environment who flag payload action source db ≡ ok (answer, db')
    → {e : Environment} → environment_at environment.id db ≡ some e
    → environment_at environment.id db' ≡ some (bump (bump e))
unfolding write_update
update_flag-environment rt now project environment who flag payload action source db h found =
    let updated =
      update_flag-HasUpdated rt now project environment who flag payload action source db _ _ h in
    ap (environment_at environment.id) updated.written
    ∙ updated_environment environment.id environment.id (λ e. bump (bump e)) (λ e. refl)
        db.environments found refl

-- One configuration of the environment is written: replaced, or rolled back.
pub data Writes (rt : Runtime) (environment_id : ℕ) (s s' : Service) : Type 0 where
  replaced :
      (del publish : Call) (r : Request) (flag_id : ℕ) (payload : FlagUpdate)
      (answer : FlagResponse)
      → payload.environment_id ≡ environment_id
      → replace_flag_configuration rt del publish r flag_id payload s ≡ ok (answer, s')
      → Writes rt environment_id s s'
  rolled_back :
      (del publish : Call) (r : Request) (flag_id version : ℕ) (payload : RollbackRequest)
      (answer : FlagResponse)
      → payload.environment_id ≡ environment_id
      → rollback_feature_flag rt del publish r flag_id version payload s ≡ ok (answer, s')
      → Writes rt environment_id s s'

module _ (rt : Runtime) where
  -- what the end of an endpoint leaves of the revision
  finished :
      (del publish : Call) (r : Request) (project_id : ℕ) (e e' : Environment)
      (flag_key event : String) (written : FlagResponse × Db) (s : Service)
      → environment_at e.id written.1 ≡ some e'
      → environment_at e.id (finish rt del publish r project_id e flag_key event written s).1.db
        ≡ some (record e' { revision = e.revision + 1 })
  finished del publish r project_id e e' flag_key event written s found =
      updated_environment e.id e.id (λ x. record x { revision = e.revision + 1 }) (λ x. refl)
        written.1.environments found refl

  -- The environment is there, one revision on.
  abbrev pub IsOn : ℕ → ℕ → Service → Type 0
  IsOn environment_id revision s =
      (e : Environment) × (environment_at environment_id s.db ≡ some e)
      × (e.revision ≡ revision + 1)

  -- the end of both endpoints
  update_flag-IsOn :
      (del publish : Call) (r : Request) (project : Project) (environment_id : ℕ)
      (e environment : Environment) (flag : FeatureFlag) (payload : FlagUpdate)
      (action event : String) (source : Option ℕ) (s s' : Service) (answer : FlagResponse)
      (written : FlagResponse × Db)
      → environment_at environment_id s.db ≡ some e
      → environment_at environment_id s.db ≡ some environment
      → update_flag rt r.now project environment (actor r) flag payload action source s.db
        ≡ ok written
      → ok (finish rt del publish r project.id environment flag.key event written s)
        ≡ ok (answer, s')
      → IsOn environment_id e.revision s'
  update_flag-IsOn del publish r project environment_id e environment flag payload action event
        source s s' answer written found found' h done =
      let test = find_where-test (λ (x : Environment). x.id == environment_id) _ found' in
      let same : environment.id ≡ environment_id = ground arith in
      let there =
        update_flag-environment rt r.now project environment (actor r) flag payload action source
          s.db h (subst (λ i. environment_at i s.db ≡ some environment) (sym same) found') in
      let last =
        finished del publish r project.id environment (bump (bump environment)) flag.key event
          written s there in
      (
        record (bump (bump environment)) { revision = environment.revision + 1 },
        subst
            (λ i.
              environment_at i s'.db
              ≡ some (record (bump (bump environment)) { revision = environment.revision + 1 }))
            same
            (ap (λ (t : Service). environment_at environment.id t.db)
                (sym (ap (λ p. p.1) (ok-injective done)))
              ∙ last),
        ap (λ (x : Environment). x.revision + 1) (some-injective (sym found' ∙ found)),
      )

  pub Writes-IsOn :
      (environment_id : ℕ) (s s' : Service) (e : Environment)
      → Writes rt environment_id s s'
      → environment_at environment_id s.db ≡ some e
      → IsOn environment_id e.revision s'
  unfolding replace_flag_configuration rollback_feature_flag rollback_flag
  Writes-IsOn environment_id s s' e (replaced del publish r flag_id payload answer same h) found =
      let (flag, h₁, r₁) = >>=-eq-ok (or_raise (get_row flag_id s.db) flag_not_found) _ h in
      let (granted, h₂, r₂) =
        >>=-eq-ok (authorize_project (tenants s) r.principal flag.project_id flag_write) _ r₁ in
      let (a, h₃, r₃) =
        >>=-eq-ok (authorize_environment (tenants s) r.principal payload.environment_id flag_write)
          _ r₂ in
      let (written, h₄, r₄) =
        >>=-eq-ok
          (update_flag rt r.now granted.0 a.0 (actor r) flag payload "flag.updated" none s.db) _
          r₃ in
      update_flag-IsOn del publish r granted.0 environment_id e a.0 flag payload "flag.updated"
        "flag.updated" none s s' answer written found
        (subst (λ i. environment_at i s.db ≡ some a.0) same
          (authorize_environment-found (tenants s) r.principal payload.environment_id flag_write
            h₃))
        h₄ r₄
  Writes-IsOn environment_id s s' e
        (rolled_back del publish r flag_id version payload answer same h) found =
      let (flag, h₁, r₁) = >>=-eq-ok (or_raise (get_row flag_id s.db) flag_not_found) _ h in
      let (granted, h₂, r₂) =
        >>=-eq-ok (authorize_project (tenants s) r.principal flag.project_id flag_write) _ r₁ in
      let (a, h₃, r₃) =
        >>=-eq-ok (authorize_environment (tenants s) r.principal payload.environment_id flag_write)
          _ r₂ in
      let (written, h₄, r₄) =
        >>=-eq-ok
          (rollback_flag rt r.now granted.0 a.0 (actor r) flag version payload.expected_version
            s.db)
          _ r₃ in
      let (target, h₅, r₅) =
        >>=-eq-ok
          (or_raise {A = FlagVersion}
            (find_version rt r.now granted.0 a.0 (actor r) flag version s.db)
            (api 404 "version_not_found" "Flag version was not found."))
          _ h₄ in
      let (old, h₆, r₆) = >>=-eq-ok (validate_configuration target.snapshot) _ r₅ in
      let (change, h₇, r₇) =
        >>=-eq-ok (update_from_configuration old a.0.id payload.expected_version) _ r₆ in
      update_flag-IsOn del publish r granted.0 environment_id e a.0 flag change "flag.rollback"
        "flag.rollback" (some version) s s' answer written found
        (subst (λ i. environment_at i s.db ≡ some a.0) same
          (authorize_environment-found (tenants s) r.principal payload.environment_id flag_write
            h₃))
        r₇ r₄
