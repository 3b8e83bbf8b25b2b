-- ===== src/Management/Organizations.antt =====
-- backend/app/api/management.py: organizations, projects, environments and the audit log.
use cohort_switch.Prelude.{
  ℕ, suc, String, Option, none, some, Bool, true, ◌&&◌, List, [], ◌∷◌, ◌++◌, ◌==◌, any, take, ltb,
  str_eq,
}
use cohort_switch.Prelude.Sort.{sorted}
use mathlib.Core.List.{reverse}
use cohort_switch.Errors.{Error, Result, ok, api, integrity_error, raise_if, ◌>>=◌, ◌>>◌}
use cohort_switch.Evaluation.Value.{str}
use cohort_switch.Database.{Project, Environment, AuditEvent}
use cohort_switch.Permissions.{project_manage, environment_manage, audit_read}
use cohort_switch.Access.{authorize_organization, authorize_project}
use cohort_switch.Flags.Tables.{select_where, or_raise}
use cohort_switch.Management.{Organization, Service, Request, tenants, audit}

pub record OrganizationCreate : Type 0 where
  pub name : String
  pub slug : String

pub record ProjectCreate : Type 0 where
  pub organization_id : ℕ
  pub name : String
  pub slug : String

pub record EnvironmentCreate : Type 0 where
  pub key : String
  pub name : String

abbrev pub user_auth_required : Error
user_auth_required = api 403 "user_auth_required" "A user access token is required."

-- The flush of a new row tests its unique columns.
unfoldable pub create_organization :
    Request → OrganizationCreate → Service → Result (Organization × Service)
create_organization r payload s = do
  user_id ← or_raise r.principal.user_id user_auth_required
  raise_if (any (λ o. str_eq o.slug payload.slug) s.organizations) integrity_error
  let organization : Organization = record {
    id = s.db.next_id;
    name = payload.name;
    slug = payload.slug;
  }
  ok (
    organization,
    record s {
      organizations = s.organizations ++ (organization ∷ []);
      memberships =
          s.memberships
          ++ (record { organization_id = organization.id; user_id = user_id; role = "OWNER" } ∷ []);
      db =
          audit r organization.id "organization.created" "organization" organization.id
            (("slug", str organization.slug) ∷ []) (record s.db { next_id = suc s.db.next_id });
    },
  )

-- the organizations that the user is a member of; `rank` numbers the names in collation order
unfoldable pub list_organizations : (String → ℕ) → Request → Service → Result (List Organization)
unfolding sorted
list_organizations rank r s = do
  user_id ← or_raise r.principal.user_id user_auth_required
  ok (
      sorted (λ o. rank o.name)
        (select_where
          (λ o. any (λ m. m.organization_id == o.id && m.user_id == user_id) s.memberships)
          s.organizations))

unfoldable pub create_project : Request → ProjectCreate → Service → Result (Project × Service)
unfolding authorize_organization
create_project r payload s = do
  membership ← authorize_organization (tenants s) r.principal payload.organization_id project_manage
  raise_if
      (any (λ p. p.organization_id == payload.organization_id && str_eq p.slug payload.slug)
        s.projects)
      integrity_error
  let project : Project = record {
    id = s.db.next_id;
    organization_id = payload.organization_id;
    name = payload.name;
    slug = payload.slug;
  }
  ok (
    project,
    record s {
      projects = s.projects ++ (project ∷ []);
      db =
          audit r payload.organization_id "project.created" "project" project.id
            (("slug", str project.slug) ∷ []) (record s.db { next_id = suc s.db.next_id });
    },
  )

unfoldable pub create_environment :
    Request → ℕ → EnvironmentCreate → Service → Result (Environment × Service)
unfolding authorize_project
create_environment r project_id payload s = do
  (project, membership) ← authorize_project (tenants s) r.principal project_id environment_manage
  raise_if (any (λ e. e.project_id == project.id && str_eq e.key payload.key) s.db.environments)
      integrity_error
  let environment : Environment = record {
    id = s.db.next_id;
    project_id = project.id;
    key = payload.key;
    name = payload.name;
    revision = 0;
  }
  ok (
    environment,
    record s {
      db =
          audit r project.organization_id "environment.created" "environment" environment.id
            (("key", str environment.key) ∷ [])
            (record s.db {
              environments = s.db.environments ++ (environment ∷ []);
              next_id = suc s.db.next_id;
            });
    },
  )

-- `if before: ... created_at < before`
abbrev pub is_before : Option ℕ → AuditEvent → Bool
is_before none e = true
is_before (some t) e = ltb e.created_at t

-- the latest events first, at most `limit` of them
unfoldable pub list_audit_events : Request → ℕ → ℕ → Option ℕ → Service → Result (List AuditEvent)
unfolding authorize_organization sorted
list_audit_events r organization_id limit before s = do
  membership ← authorize_organization (tenants s) r.principal organization_id audit_read
  ok (
      take limit (
        reverse (
          sorted (λ e. e.created_at)
            (select_where (λ e. e.organization_id == organization_id && is_before before e)
              s.db.audits))))
