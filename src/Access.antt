-- ===== src/Access.antt =====
-- backend/app/api/dependencies.py: who makes a request, and on which tenant it may act.
pub mod Roles
pub mod Isolation
mod Tests
use cohort_switch.Prelude.{
  ℕ, String, Option, none, some, Bool, true, false, not, ◌&&◌, ◌||◌, List, [], ◌∷◌, ◌==◌, str_eq,
  elem, starts_with, if◌then◌else◌,
}
use cohort_switch.Errors.{Result, ok, err, api, raise_if, except_value_error, ◌>>=◌, ◌>>◌}
use cohort_switch.Database.{Project, Environment}
use cohort_switch.Flags.Tables.{find_where, update_where, or_raise, is_none}
use cohort_switch.Permissions.{Permission, permission_value, require_role_permission}

pub record Principal : Type 0 where
  pub user_id : Option ℕ
  pub api_key_id : Option ℕ
  pub kind : String
  pub organization_id : Option ℕ
  pub project_id : Option ℕ
  pub environment_id : Option ℕ
  pub scopes : List String

pub record Membership : Type 0 where
  pub organization_id : ℕ
  pub user_id : ℕ
  pub role : String

pub record User : Type 0 where
  pub id : ℕ
  pub email : String
  pub is_active : Bool

pub record ApiKey : Type 0 where
  pub id : ℕ
  pub organization_id : ℕ
  pub project_id : Option ℕ
  pub environment_id : Option ℕ
  pub name : String
  pub kind : String
  pub key_prefix : String
  pub key_hash : String
  pub scopes : List String
  pub last_used_at : Option ℕ
  pub revoked_at : Option ℕ
  pub created_by_id : Option ℕ
  pub created_at : ℕ

-- The tables that authorization reads.
pub record Tenants : Type 0 where
  pub projects : List Project
  pub environments : List Environment
  pub memberships : List Membership
  pub users : List User
  pub api_keys : List ApiKey

-- `a != b` where `a` may be None
abbrev pub differs : Option ℕ → ℕ → Bool
differs none b = true
differs (some a) b = not (a == b)

-- `a and a != b`
abbrev pub is_bound_elsewhere : Option ℕ → ℕ → Bool
is_bound_elsewhere none b = false
is_bound_elsewhere (some a) b = not (a == b)

abbrev pub is_management : Principal → Bool
is_management p = str_eq p.kind "MANAGEMENT"

-- The principal of a request, and the keys once the use of one is noted. `hash_secret` is SHA-256;
-- `decode` reads the subject of a token, and fails with a ValueError where the token is invalid.
module _ (hash_secret : String → String) (decode : String → Result ℕ) (now : ℕ)
    (tenants : Tenants) where
  abbrev pub user_principal : ℕ → Principal
  user_principal id = record {
    user_id = some id;
    api_key_id = none;
    kind = "USER";
    organization_id = none;
    project_id = none;
    environment_id = none;
    scopes = [];
  }

  abbrev pub key_principal : ApiKey → Principal
  key_principal key = record {
    user_id = none;
    api_key_id = some key.id;
    kind = key.kind;
    organization_id = some key.organization_id;
    project_id = key.project_id;
    environment_id = key.environment_id;
    scopes = key.scopes;
  }

  -- `raw = api_key_header`, or credentials that look like a key
  unfoldable pub raw_key : Option String → Option String → Option String
  raw_key (some header) credentials = some header
  raw_key none none = none
  raw_key none (some c) = if starts_with c "cs_" then some c else none

  unfoldable pub principal_of_key : String → Result (Principal × List ApiKey)
  principal_of_key raw = do
    key ←
        or_raise
          (find_where (λ k. str_eq k.key_hash (hash_secret raw) && is_none k.revoked_at)
            tenants.api_keys)
          (api 401 "invalid_api_key" "API key is invalid or revoked.")
    ok (
      key_principal key,
      update_where (λ k. k.id == key.id) (λ k. record k { last_used_at = some now })
          tenants.api_keys,
    )

  unfoldable pub principal_of_token : Option String → Result (Principal × List ApiKey)
  principal_of_token credentials = do
    token ← or_raise credentials (api 401 "authentication_required" "Authentication is required.")
    user_id ←
        except_value_error (decode token)
          (api 401 "invalid_access_token" "Access token is invalid or expired.")
    user ←
        or_raise (find_where (λ u. u.id == user_id) tenants.users)
          (api 401 "account_inactive" "The account is inactive.")
    raise_if (not user.is_active) (api 401 "account_inactive" "The account is inactive.")
    ok (user_principal user.id, tenants.api_keys)

  -- An empty header is a key that is not given.
  unfoldable pub get_principal : Option String → Option String → Result (Principal × List ApiKey)
  unfolding raw_key principal_of_key principal_of_token
  get_principal api_key_header credentials = elim (raw_key api_key_header credentials) [
    | none ↦ principal_of_token credentials
    | some raw ↦ if str_eq raw "" then principal_of_token credentials else principal_of_key raw
  ]

module _ (tenants : Tenants) (principal : Principal) where
  -- `membership_for`, for a management key and for a user. The membership of a key has the nil UUID,
  -- 0, as its user.
  unfoldable pub membership_by : Bool → ℕ → Result Membership
  membership_by true organization_id =
      raise_if (differs principal.organization_id organization_id)
        (api 404 "organization_not_found" "Organization was not found.")
      >> ok (record { organization_id = organization_id; user_id = 0; role = "OWNER" })
  membership_by false organization_id = do
    user_id ←
        or_raise principal.user_id
          (api 403 "management_auth_required" "Management credentials are required.")
    or_raise
        (find_where (λ m. m.organization_id == organization_id && m.user_id == user_id)
          tenants.memberships)
        (api 404 "organization_not_found" "Organization was not found.")

  unfoldable pub membership_for : ℕ → Result Membership
  unfolding membership_by
  membership_for = membership_by (is_management principal)

  -- the test of the permission, for a management key and for a user
  unfoldable pub require_permission : Bool → Membership → Permission → Result (Unit {0})
  unfolding permission_value require_role_permission
  require_permission true membership permission =
      raise_if (not (elem (permission_value permission) principal.scopes))
        (api 403 "insufficient_scope" "API key lacks the required scope.")
  require_permission false membership permission =
      require_role_permission membership.role permission

  unfoldable pub authorize_organization : ℕ → Permission → Result Membership
  unfolding membership_for require_permission
  authorize_organization organization_id permission = do
    membership ← membership_for organization_id
    require_permission (is_management principal) membership permission
    ok membership

  unfoldable pub authorize_project : ℕ → Permission → Result (Project × Membership)
  unfolding authorize_organization
  authorize_project project_id permission = do
    project ←
        or_raise (find_where (λ p. p.id == project_id) tenants.projects)
          (api 404 "project_not_found" "Project was not found.")
    raise_if (is_bound_elsewhere principal.project_id project_id)
        (api 404 "project_not_found" "Project was not found.")
    membership ← authorize_organization project.organization_id permission
    ok (project, membership)

  unfoldable pub authorize_environment :
      ℕ → Permission → Result (Environment × Project × Membership)
  unfolding authorize_project
  authorize_environment environment_id permission = do
    environment ←
        or_raise (find_where (λ e. e.id == environment_id) tenants.environments)
          (api 404 "environment_not_found" "Environment was not found.")
    raise_if (is_bound_elsewhere principal.environment_id environment_id)
        (api 404 "environment_not_found" "Environment was not found.")
    granted ← authorize_project environment.project_id permission
    ok (environment, granted.0, granted.1)

unfoldable pub require_api_scope : Principal → String → Result (Unit {0})
require_api_scope principal scope =
    raise_if
      (not (str_eq principal.kind "SDK" || str_eq principal.kind "MANAGEMENT")
        || not (elem scope principal.scopes))
      (api 403 "insufficient_scope" "API key lacks the required scope.")
