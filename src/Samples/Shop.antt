-- ===== src/Samples/Shop.antt =====
-- The service of one organization with one flag, for the tests.
use cohort_switch.Prelude.{true, none, some, [], ◌∷◌}
use cohort_switch.Access.{Principal}
use cohort_switch.Management.{Service, ScheduledChange, Request}
use cohort_switch.Samples.{shop, run_create}

abbrev pub alice : Principal
alice = record {
  user_id = some 7;
  api_key_id = none;
  kind = "USER";
  organization_id = none;
  project_id = none;
  environment_id = none;
  scopes = [];
}

-- a management key that is bound to another environment of the project
abbrev pub staging_key : Principal
staging_key = record {
  user_id = none;
  api_key_id = some 3;
  kind = "MANAGEMENT";
  organization_id = some 1;
  project_id = some 2;
  environment_id = some 9;
  scopes = "flags:read" ∷ "flags:write" ∷ [];
}

abbrev pub by_alice : Request
by_alice = record { principal = alice; request_id = some "r2"; now = 400 }

abbrev pub by_key : Request
by_key = record { principal = staging_key; request_id = some "r3"; now = 400 }

abbrev pub enabling : ScheduledChange
enabling = record {
  id = 8;
  config_id = 6;
  change_type = "enable";
  payload = [];
  activate_at = 450;
  applied_at = none;
  created_by_id = some 7;
}

abbrev pub service : Service
service = record {
  organizations = record { id = 1; name = "Acme"; slug = "acme" } ∷ [];
  projects = shop ∷ [];
  memberships = record { organization_id = 1; user_id = 7; role = "OWNER" } ∷ [];
  users = record { id = 7; email = "alice@example.com"; is_active = true } ∷ [];
  api_keys = [];
  scheduled = enabling ∷ [];
  db = run_create.1;
  redis = [];
  events = [];
}
