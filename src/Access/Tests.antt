-- ===== src/Access/Tests.antt =====
-- The theorems on access at concrete inputs.
use cohort_switch.Prelude.{◌≡◌, refl, ◌↔◌, arith, true, none, some, [], ◌∷◌}
use cohort_switch.Errors.{ok, err, api}
use cohort_switch.Database.{Project, Environment}
use cohort_switch.Permissions.{
  flag_read, flag_write, developer, admin, require_role_permission, role_of_name,
}
use cohort_switch.Access.{Principal, Membership, Tenants, authorize_environment}
use cohort_switch.Access.Roles.{require_role_permission_monotone}
use cohort_switch.Access.Isolation.{IsGranted, authorize_environment_iff}

abbrev two_tenants : Tenants
two_tenants = record {
  projects =
      record { id = 2; organization_id = 1; name = "Shop"; slug = "shop" }
      ∷ record { id = 12; organization_id = 11; name = "Other"; slug = "other" }
      ∷ [];
  environments =
      record { id = 4; project_id = 2; key = "production"; name = "Production"; revision = 7 }
      ∷ record { id = 14; project_id = 12; key = "production"; name = "Production"; revision = 1 }
      ∷ [];
  memberships = record { organization_id = 1; user_id = 7; role = "DEVELOPER" } ∷ [];
  users = record { id = 7; email = "alice@example.com"; is_active = true } ∷ [];
  api_keys = [];
}

abbrev alice : Principal
alice = record {
  user_id = some 7;
  api_key_id = none;
  kind = "USER";
  organization_id = none;
  project_id = none;
  environment_id = none;
  scopes = [];
}

abbrev sdk : Principal
sdk = record {
  user_id = none;
  api_key_id = some 3;
  kind = "SDK";
  organization_id = some 1;
  project_id = some 2;
  environment_id = some 4;
  scopes = "flags:read" ∷ "evaluate" ∷ [];
}

alice_writes :
    (answer : Environment × Project × Membership) × (authorize_environment two_tenants alice 4
        flag_write
      ≡ ok answer)
unfolding authorize_environment
alice_writes = (_, refl)

other_tenant_is_hidden :
    authorize_environment two_tenants alice 14 flag_read
    ≡ err (api 404 "organization_not_found" "Organization was not found.")
unfolding authorize_environment
other_tenant_is_hidden = refl

authorize_environment_iff_example :
    ((answer : Environment × Project × Membership) × (authorize_environment two_tenants alice 4
          flag_write
        ≡ ok answer))
    ↔ IsGranted two_tenants alice 4 flag_write
authorize_environment_iff_example = authorize_environment_iff two_tenants alice 4 flag_write

developer_writes : require_role_permission "DEVELOPER" flag_write ≡ ok tt
unfolding require_role_permission
developer_writes = refl

named_developer : role_of_name "DEVELOPER" ≡ some developer
unfolding role_of_name
named_developer = refl

named_admin : role_of_name "ADMIN" ≡ some admin
unfolding role_of_name
named_admin = refl

require_role_permission_monotone_example : require_role_permission "ADMIN" flag_write ≡ ok tt
require_role_permission_monotone_example =
    require_role_permission_monotone "DEVELOPER" "ADMIN" developer admin flag_write named_developer
      named_admin (omega arith) developer_writes
