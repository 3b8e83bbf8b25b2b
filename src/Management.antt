-- ===== src/Management.antt =====
-- backend/app/api/management.py: the management endpoints, over one state of all the tables and Redis.
pub mod Organizations
pub mod Flags
pub mod Keys
pub mod Export
pub mod Archive
pub mod Binding
pub mod Revisions
pub mod Etags
pub mod Credentials
pub mod Scopes
mod Tests
use cohort_switch.Prelude.{ℕ, ◌+◌, String, Option, List, ◌==◌}
use cohort_switch.Runtime.{Runtime}
use cohort_switch.Evaluation.Value.{Value}
use cohort_switch.Database.{Project, Environment}
use cohort_switch.Access.{Principal, Membership, User, ApiKey, Tenants}
use cohort_switch.Flags.Tables.{Db, Actor, update_where, record_audit}
use cohort_switch.Cache.{Redis, Call, Event, invalidate_and_publish}

pub record Organization : Type 0 where
  pub id : ℕ
  pub name : String
  pub slug : String

pub record ScheduledChange : Type 0 where
  pub id : ℕ
  pub config_id : ℕ
  pub change_type : String
  pub payload : List (String × Value)
  pub activate_at : ℕ
  pub applied_at : Option ℕ
  pub created_by_id : Option ℕ

-- The tables, what Redis holds, and the messages that were published.
pub record Service : Type 0 where
  pub organizations : List Organization
  pub projects : List Project
  pub memberships : List Membership
  pub users : List User
  pub api_keys : List ApiKey
  pub scheduled : List ScheduledChange
  pub db : Db
  pub redis : Redis
  pub events : List Event

-- what authorization reads
abbrev pub tenants : Service → Tenants
tenants s = record {
  projects = s.projects;
  environments = s.db.environments;
  memberships = s.memberships;
  users = s.users;
  api_keys = s.api_keys;
}

-- An authenticated request: who makes it, its `request.state.request_id`, and when.
pub record Request : Type 0 where
  pub principal : Principal
  pub request_id : Option String
  pub now : ℕ

abbrev pub actor : Request → Actor
actor r = record {
  user_id = r.principal.user_id;
  api_key_id = r.principal.api_key_id;
  request_id = r.request_id;
}

-- `record_audit`, on the tables
abbrev pub audit : Request → ℕ → String → String → ℕ → List (String × Value) → Db → Db
audit r organization_id action resource_type resource_id metadata db = record db {
  audits =
      record_audit r.now organization_id action resource_type resource_id (actor r) metadata
        db.audits;
}

-- `environment.revision = revision`
abbrev pub set_revision : ℕ → ℕ → Db → Db
set_revision environment_id revision db = record db {
  environments =
      update_where (λ e. e.id == environment_id) (λ e. record e { revision = revision })
        db.environments;
}

-- What follows a commit: the entry of the cache is deleted and the change is published, as far as Redis
-- answers.
abbrev pub notify : Runtime → Call → Call → ℕ → ℕ → String → String → ℕ → ℕ → Service → Service
notify rt del publish project_id environment_id flag_key event version revision s =
    let (redis, events) =
      invalidate_and_publish rt project_id environment_id del publish flag_key event version
        revision s.redis s.events in
    record s { redis = redis; events = events }
