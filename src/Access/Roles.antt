-- ===== src/Access/Roles.antt =====
-- backend/app/core/permissions.py: the order of the roles.
use cohort_switch.Prelude.{ℕ, ◌≤◌, ◌≡◌, refl, subst, sym, not, true, String, some, arith}
use cohort_switch.Errors.{ok, api, raise_if-eq-ok}
use cohort_switch.Evaluation.Models.Soundness.{of_not-false}
use cohort_switch.Permissions.{
  Role, owner, admin, developer, viewer, Permission, org_manage, project_manage, environment_manage,
  flag_read, flag_write, evaluate, audit_read, key_manage, role_permits, permit_role, role_of_name,
  require_role_permission,
}

-- The rank of a role, from the one that may do least.
abbrev pub rank : Role → ℕ
rank viewer = 0
rank developer = 1
rank admin = 2
rank owner = 3

role_permits_monotone :
    (r s : Role) (p : Permission)
    → rank r ≤ rank s
    → role_permits r p ≡ true
    → role_permits s p ≡ true
unfolding role_permits
role_permits_monotone r owner p le h = refl
role_permits_monotone r admin p le h = refl
role_permits_monotone developer developer p le h = h
role_permits_monotone owner developer p le h = absurd (omega arith)
role_permits_monotone admin developer p le h = absurd (omega arith)
role_permits_monotone viewer viewer p le h = h
role_permits_monotone owner viewer p le h = absurd (omega arith)
role_permits_monotone admin viewer p le h = absurd (omega arith)
role_permits_monotone developer viewer p le h = absurd (omega arith)
role_permits_monotone viewer developer flag_read le h = refl
role_permits_monotone viewer developer evaluate le h = refl
role_permits_monotone viewer developer flag_write le h = refl
role_permits_monotone viewer developer audit_read le h = refl
role_permits_monotone viewer developer org_manage le h = absurd (cc)
role_permits_monotone viewer developer project_manage le h = absurd (cc)
role_permits_monotone viewer developer environment_manage le h = absurd (cc)
role_permits_monotone viewer developer key_manage le h = absurd (cc)

-- Of two names of roles, the one of the higher role passes every permission that the other passes.
pub require_role_permission_monotone :
    (low high : String) (r s : Role) (p : Permission)
    → role_of_name low ≡ some r
    → role_of_name high ≡ some s
    → rank r ≤ rank s
    → require_role_permission low p ≡ ok tt
    → require_role_permission high p ≡ ok tt
unfolding require_role_permission permit_role
require_role_permission_monotone low high r s p e e' le h =
    let permitted : role_permits r p ≡ true = of_not-false _ (
      raise_if-eq-ok (not (role_permits r p))
        (api 403 "permission_denied" "The requested operation is not allowed.")
        (subst (λ o. permit_role o p ≡ ok tt) e h)) in
    subst (λ o. permit_role o p ≡ ok tt) (sym e')
      (rw (role_permits_monotone r s p le permitted) refl)
