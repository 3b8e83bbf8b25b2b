-- ===== src/Management/Binding.antt =====
-- backend/app/api/management.py: keys that are bound to one environment.
use cohort_switch.Prelude.{ℕ, ◌≡◌, refl, String, Option, true, ◌==◌}
use cohort_switch.Errors.{Result, Raises, Ensures->>=, Ensures-at, api, ◌>>=◌}
use cohort_switch.Runtime.{Runtime}
use cohort_switch.Database.{Environment, Project}
use cohort_switch.Schemas.{FlagCreate, FlagUpdate}
use cohort_switch.Permissions.{Permission, flag_write}
use cohort_switch.Access.{
  Principal, Membership, Tenants, is_bound_elsewhere, authorize_project, authorize_environment,
}
use cohort_switch.Flags.Tables.{find_where, or_raise}
use cohort_switch.Flags.Lookup.{flag_not_found}
use cohort_switch.Cache.{Call}
use cohort_switch.Management.{Service, Request, tenants}
use cohort_switch.Management.Flags.{
  RuleCreate, RollbackRequest, get_row, create_feature_flag, replace_flag_configuration,
  add_targeting_rule, rollback_feature_flag,
}

authorize_environment-bound :
    (t : Tenants) (principal : Principal) (environment_id : ℕ) (permission : Permission)
    → is_bound_elsewhere principal.environment_id environment_id ≡ true
    → Raises (authorize_environment t principal environment_id permission)
unfolding authorize_environment
authorize_environment-bound t principal environment_id permission bound =
    Ensures->>= (λ v. ⊥)
      (or_raise (find_where (λ e. e.id == environment_id) t.environments)
        (api 404 "environment_not_found" "Environment was not found."))
      _ (λ environment h. rw bound tt)

module _ (rt : Runtime) (del publish : Call) (r : Request) where
  unauthorized :
      {V : Type 0} (environment_id : ℕ) (s : Service)
      → is_bound_elsewhere r.principal.environment_id environment_id ≡ true
      → (next : Environment × Project × Membership → Result V)
      → Raises (authorize_environment (tenants s) r.principal environment_id flag_write >>= next)
  unauthorized environment_id s bound next =
      let refused =
        authorize_environment-bound (tenants s) r.principal environment_id flag_write bound in
      Ensures->>= (λ v. ⊥) (authorize_environment (tenants s) r.principal environment_id flag_write)
        next (λ a h. absurd (Ensures-at (λ v. ⊥) _ h refused))

  -- A key that is bound to another environment can neither create a flag, nor replace its
  -- configuration, nor roll it back.
  pub bound_key_refused :
      (salt : String) (project_id flag_id version : ℕ) (creation : FlagCreate) (change : FlagUpdate)
      (rollback : RollbackRequest) (s : Service)
      → is_bound_elsewhere r.principal.environment_id creation.environment_id ≡ true
      → is_bound_elsewhere r.principal.environment_id change.environment_id ≡ true
      → is_bound_elsewhere r.principal.environment_id rollback.environment_id ≡ true
      → Raises (create_feature_flag rt del publish r salt project_id creation s)
        × Raises (replace_flag_configuration rt del publish r flag_id change s)
        × Raises (rollback_feature_flag rt del publish r flag_id version rollback s)
  unfolding create_feature_flag replace_flag_configuration rollback_feature_flag
  bound_key_refused salt project_id flag_id version creation change rollback s b₁ b₂ b₃ = (
    Ensures->>= (λ v. ⊥) (authorize_project (tenants s) r.principal project_id flag_write) _
        (λ granted h. unauthorized creation.environment_id s b₁ _),
    Ensures->>= (λ v. ⊥) (or_raise (get_row flag_id s.db) flag_not_found) _
        (λ flag h.
          Ensures->>= (λ v. ⊥)
            (authorize_project (tenants s) r.principal flag.project_id flag_write) _
            (λ granted h'. unauthorized change.environment_id s b₂ _)),
    Ensures->>= (λ v. ⊥) (or_raise (get_row flag_id s.db) flag_not_found) _
        (λ flag h.
          Ensures->>= (λ v. ⊥)
            (authorize_project (tenants s) r.principal flag.project_id flag_write) _
            (λ granted h'. unauthorized rollback.environment_id s b₃ _)),
  )

  -- Adding a rule has the outcome that it has for the same principal bound to any other environment,
  -- or to none.
  pub add_targeting_rule_unbound :
      (flag_id : ℕ) (payload : RuleCreate) (s : Service) (environment_id : Option ℕ)
      → add_targeting_rule rt del publish
          (record r { principal = record r.principal { environment_id = environment_id } })
          flag_id
          payload
          s
        ≡ add_targeting_rule rt del publish r flag_id payload s
  unfolding add_targeting_rule
  add_targeting_rule_unbound flag_id payload s environment_id = refl
