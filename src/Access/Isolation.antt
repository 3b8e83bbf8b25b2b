-- ===== src/Access/Isolation.antt =====
-- backend/app/api/dependencies.py: which principals are authorized for a tenant.
use cohort_switch.Prelude.{
  ℕ, ◌≡◌, refl, ◌∙◌, ap, subst, ◌↔◌, String, Option, none, some, Bool, true, false, not, ◌&&◌,
  arith, ◌==◌, elem,
}
use cohort_switch.Errors.{
  Error, Result, ok, err, api, raise_if, ◌>>=◌, ◌>>◌, >>=-eq-ok, raise_if-eq-ok,
}
use cohort_switch.Database.{Project, Environment}
use cohort_switch.Flags.Tables.{find_where, or_raise}
use cohort_switch.Flags.Store.Lists.{or_raise-eq-ok}
use cohort_switch.Evaluation.Models.Soundness.{of_not-false}
use cohort_switch.Permissions.{
  Permission, permission_value, Role, role_of_name, role_permits, permit_role,
  require_role_permission,
}
use cohort_switch.Access.{
  membership_by, require_permission, Principal, Membership, Tenants, differs, is_bound_elsewhere,
  is_management, membership_for, authorize_organization, authorize_project, authorize_environment,
}

require_role_permission-ok :
    (name : String) (p : Permission)
    → require_role_permission name p ≡ ok tt
    → (r : Role) × (role_of_name name ≡ some r) × (role_permits r p ≡ true)
unfolding require_role_permission permit_role
require_role_permission-ok name p h = decide (role_of_name name) refl
  where
    decide :
        (found : Option Role)
        → role_of_name name ≡ found
        → (r : Role) × (role_of_name name ≡ some r) × (role_permits r p ≡ true)
    decide none e = absurd (let h' = subst (λ o. permit_role o p ≡ ok tt) e h in cc)
    decide (some r) e = (
      r,
      e,
      of_not-false _ (
          raise_if-eq-ok (not (role_permits r p))
            (api 403 "permission_denied" "The requested operation is not allowed.")
            (subst (λ o. permit_role o p ≡ ok tt) e h)),
    )

differs-false : (o : Option ℕ) (n : ℕ) → differs o n ≡ false → o ≡ some n
differs-false none n h = absurd (cc)
differs-false (some m) n h = let e : m ≡ n = ground arith in ap some e

module _ (tenants : Tenants) (principal : Principal) where
  -- The principal may do this in the organization: as a management key of it that has the scope, or as
  -- a member whose role permits it.
  pub data MayAct (organization_id : ℕ) (permission : Permission) : Type 0 where
    by_key :
        is_management principal ≡ true
        → principal.organization_id ≡ some organization_id
        → elem (permission_value permission) principal.scopes ≡ true
        → MayAct organization_id permission
    by_member :
        is_management principal ≡ false
        → (user_id : ℕ) → principal.user_id ≡ some user_id
        → (m : Membership)
        → find_where
            (λ m. m.organization_id == organization_id && m.user_id == user_id)
            tenants.memberships
          ≡ some m
        → (r : Role) → role_of_name m.role ≡ some r
        → role_permits r permission ≡ true
        → MayAct organization_id permission

  -- the two steps of `authorize_organization`, for a key or a user
  abbrev steps : Bool → ℕ → Permission → Result Membership
  steps b organization_id permission = membership_by tenants principal b organization_id >>= λ m.
      require_permission tenants principal b m permission >> ok m

  steps-MayAct :
      (b : Bool) (organization_id : ℕ) (permission : Permission) (m : Membership)
      → is_management principal ≡ b
      → steps b organization_id permission ≡ ok m
      → MayAct organization_id permission
  unfolding membership_by require_permission
  steps-MayAct true organization_id permission m key h =
      let (m', h₁, r₁) = >>=-eq-ok (membership_by tenants principal true organization_id) _ h in
      let (u, h₂, r₂) = >>=-eq-ok (require_permission tenants principal true m' permission) _ r₁ in
      let (v, h₃, r₃) =
        >>=-eq-ok (raise_if (differs principal.organization_id organization_id) missing) _ h₁ in
      by_key key (differs-false _ _ (raise_if-eq-ok _ missing h₃)) (
        of_not-false _
          (raise_if-eq-ok (not (elem (permission_value permission) principal.scopes)) unscoped h₂))
    where
      missing : Error
      missing = api 404 "organization_not_found" "Organization was not found."

      unscoped : Error
      unscoped = api 403 "insufficient_scope" "API key lacks the required scope."
  steps-MayAct false organization_id permission m member h =
      let (m', h₁, r₁) = >>=-eq-ok (membership_by tenants principal false organization_id) _ h in
      let (u, h₂, r₂) = >>=-eq-ok (require_permission tenants principal false m' permission) _ r₁ in
      let (user_id, h₃, r₃) = >>=-eq-ok (or_raise principal.user_id unauthenticated) _ h₁ in
      let (r, named, permitted) = require_role_permission-ok m'.role permission h₂ in
      by_member member user_id (or_raise-eq-ok _ unauthenticated h₃) m'
        (or_raise-eq-ok _ missing r₃) r named permitted
    where
      missing : Error
      missing = api 404 "organization_not_found" "Organization was not found."

      unauthenticated : Error
      unauthenticated = api 403 "management_auth_required" "Management credentials are required."

  pub authorize_organization-MayAct :
      (organization_id : ℕ) (permission : Permission) (m : Membership)
      → authorize_organization tenants principal organization_id permission ≡ ok m
      → MayAct organization_id permission
  unfolding authorize_organization membership_for
  authorize_organization-MayAct organization_id permission m =
      steps-MayAct (is_management principal) organization_id permission m refl

  authorize_organization-ok :
      (organization_id : ℕ) (permission : Permission)
      → MayAct organization_id permission
      → (m : Membership) × (authorize_organization tenants principal organization_id permission
          ≡ ok m)
  unfolding authorize_organization membership_for membership_by require_permission
      require_role_permission permit_role
  authorize_organization-ok organization_id permission (by_key key own scope) = (
    record { organization_id = organization_id; user_id = 0; role = "OWNER" },
    ap (λ b. steps b organization_id permission) key ∙ rw (own, scope) (ground arith),
  )
  authorize_organization-ok organization_id permission
        (by_member member user_id e m found r named permitted) =
      (
        m,
        ap (λ b. steps b organization_id permission) member ∙ rw (e, found, named, permitted) refl,
      )

  -- The environment stands in a project, neither of them is outside what a key is bound to, and the
  -- principal may act on the organization that owns the project.
  pub record IsGranted (environment_id : ℕ) (permission : Permission) : Type 0 where
    pub environment : Environment
    pub project : Project
    pub environment_found :
        find_where (λ e. e.id == environment_id) tenants.environments ≡ some environment
    pub project_found :
        find_where (λ p. p.id == environment.project_id) tenants.projects ≡ some project
    pub environment_bound : is_bound_elsewhere principal.environment_id environment_id ≡ false
    pub project_bound : is_bound_elsewhere principal.project_id environment.project_id ≡ false
    pub may : MayAct project.organization_id permission

  authorize_environment-IsGranted :
      (environment_id : ℕ) (permission : Permission) (answer : Environment × Project × Membership)
      → authorize_environment tenants principal environment_id permission ≡ ok answer
      → IsGranted environment_id permission
  unfolding authorize_environment authorize_project
  authorize_environment-IsGranted environment_id permission answer h =
      let lost = api 404 "environment_not_found" "Environment was not found." in
      let missing = api 404 "project_not_found" "Project was not found." in
      let (e, h₁, r₁) =
        >>=-eq-ok (or_raise (find_where (λ e. e.id == environment_id) tenants.environments) lost) _
          h in
      let (u, h₂, r₂) =
        >>=-eq-ok (raise_if (is_bound_elsewhere principal.environment_id environment_id) lost) _
          r₁ in
      let (granted, h₃, r₃) =
        >>=-eq-ok (authorize_project tenants principal e.project_id permission) _ r₂ in
      let (p, h₄, r₄) =
        >>=-eq-ok (or_raise (find_where (λ p. p.id == e.project_id) tenants.projects) missing) _
          h₃ in
      let (v, h₅, r₅) =
        >>=-eq-ok (raise_if (is_bound_elsewhere principal.project_id e.project_id) missing) _ r₄ in
      let (m, h₆, r₆) =
        >>=-eq-ok (authorize_organization tenants principal p.organization_id permission) _ r₅ in
      record {
        environment = e;
        project = p;
        environment_found = or_raise-eq-ok _ lost h₁;
        project_found = or_raise-eq-ok _ missing h₄;
        environment_bound = raise_if-eq-ok _ lost h₂;
        project_bound = raise_if-eq-ok _ missing h₅;
        may = authorize_organization-MayAct p.organization_id permission m h₆;
      }

  authorize_environment-ok :
      (environment_id : ℕ) (permission : Permission)
      → IsGranted environment_id permission
      → (answer : Environment × Project × Membership) × (authorize_environment tenants principal
            environment_id permission
          ≡ ok answer)
  unfolding authorize_environment authorize_project
  authorize_environment-ok environment_id permission g =
      let (m, e) = authorize_organization-ok g.project.organization_id permission g.may in
      (
        (g.environment, g.project, m),
        rw (g.environment_found, g.environment_bound, g.project_found, g.project_bound, e) refl,
      )

  -- Authorization for an environment returns exactly where it stands in a project, neither of the two
  -- is outside what a key is bound to, and the principal may act on the organization that owns them:
  -- as a management key of it with the scope, or as a member whose role permits it.
  pub authorize_environment_iff :
      (environment_id : ℕ) (permission : Permission)
      → ((answer : Environment × Project × Membership) × (authorize_environment tenants principal
              environment_id permission
            ≡ ok answer))
        ↔ IsGranted environment_id permission
  authorize_environment_iff environment_id permission = (
    λ h. authorize_environment-IsGranted environment_id permission h.0 h.1,
    authorize_environment-ok environment_id permission,
  )

  -- A principal without a user that is no management key, such as an SDK key, is refused in every
  -- organization, whatever its scopes.
  pub authorize_organization_refused :
      (organization_id : ℕ) (permission : Permission)
      → is_management principal ≡ false
      → principal.user_id ≡ none
      → authorize_organization tenants principal organization_id permission
        ≡ err (api 403 "management_auth_required" "Management credentials are required.")
  unfolding authorize_organization membership_for membership_by
  authorize_organization_refused organization_id permission plain anonymous =
      ap (λ b. steps b organization_id permission) plain ∙ rw anonymous refl
