-- ===== src/Permissions.antt =====
-- backend/app/core/permissions.py: the roles, and what each of them permits.
use cohort_switch.Prelude.{
  String, Option, none, some, Bool, true, false, not, str_eq, if◌then◌else◌,
}
use cohort_switch.Errors.{Result, err, api, raise_if}

pub data Role : Type 0 where
  owner admin developer viewer : Role

pub data Permission : Type 0 where
  org_manage project_manage environment_manage flag_read flag_write evaluate audit_read key_manage :
      Permission

-- `Permission(...).value`
unfoldable pub permission_value : Permission → String
permission_value org_manage = "org:manage"
permission_value project_manage = "project:manage"
permission_value environment_manage = "environment:manage"
permission_value flag_read = "flags:read"
permission_value flag_write = "flags:write"
permission_value evaluate = "evaluate"
permission_value audit_read = "audit:read"
permission_value key_manage = "keys:manage"

-- `Role(role)`
unfoldable pub role_of_name : String → Option Role
role_of_name name =
    if str_eq name "OWNER"
    then some owner
    else if str_eq name "ADMIN"
    then some admin
    else if str_eq name "DEVELOPER"
    then some developer
    else if str_eq name "VIEWER"
    then some viewer
    else none

-- `permission in ROLE_PERMISSIONS[role]`
unfoldable pub role_permits : Role → Permission → Bool
role_permits owner _ = true
role_permits admin _ = true
role_permits developer flag_read = true
role_permits developer flag_write = true
role_permits developer evaluate = true
role_permits developer audit_read = true
role_permits developer _ = false
role_permits viewer flag_read = true
role_permits viewer evaluate = true
role_permits viewer _ = false

-- what follows the lookup of the role
unfoldable pub permit_role : Option Role → Permission → Result (Unit {0})
unfolding role_permits
permit_role none permission =
    err (api 403 "permission_denied" "The requested operation is not allowed.")
permit_role (some r) permission =
    raise_if (not (role_permits r permission))
      (api 403 "permission_denied" "The requested operation is not allowed.")

unfoldable pub require_role_permission : String → Permission → Result (Unit {0})
unfolding role_of_name permit_role
require_role_permission role permission = permit_role (role_of_name role) permission
