-- ===== src/Management/Keys.antt =====
-- backend/app/services/keys.py and backend/app/api/management.py: the API keys of an organization.
use cohort_switch.Prelude.{
  ℕ, zero, suc, String, Option, none, some, Bool, true, false, not, ◌||◌, List, [], ◌∷◌, ◌++◌, ◌==◌,
  any, str_eq, is_nonempty, if◌then◌else◌,
}
use cohort_switch.Prelude.Sort.{sorted}
use Prim.Native.String
use mathlib.Core.List.{reverse}
use cohort_switch.Errors.{
  Error, Result, ok, err, api, integrity_error, value_error, raise_if, ◌>>=◌, ◌>>◌,
}
use cohort_switch.Evaluation.Value.{Items, str, list, nil, cons}
use cohort_switch.Permissions.{key_manage}
use cohort_switch.Access.{ApiKey, authorize_organization}
use cohort_switch.Flags.Tables.{find_where, select_where, update_where, or_raise, is_none}
use cohort_switch.Cache.{unique_keys, sorted_texts}
use cohort_switch.Management.{Service, Request, tenants, audit}

-- the scopes that the schema of a key admits
pub data Scope : Type 0 where
  flags_read flags_write evaluates audit_reads : Scope

unfoldable pub scope_name : Scope → String
scope_name flags_read = "flags:read"
scope_name flags_write = "flags:write"
scope_name evaluates = "evaluate"
scope_name audit_reads = "audit:read"

unfoldable pub scope_names : List Scope → List String
unfolding scope_name
scope_names [] = []
scope_names (x ∷ xs) = scope_name x ∷ scope_names xs

pub record ApiKeyCreate : Type 0 where
  pub name : String
  pub organization_id : ℕ
  pub project_id : Option ℕ
  pub environment_id : Option ℕ
  pub scopes : List Scope

pub record ApiKeyCreated : Type 0 where
  pub id : ℕ
  pub name : String
  pub kind : String
  pub key_prefix : String
  pub key : String
  pub scopes : List String
  pub created_at : ℕ

abbrev pub texts : List String → Items
texts [] = nil
texts (x ∷ xs) = cons (str x) (texts xs)

abbrev pub scope_not_found : Error
scope_not_found = api 404 "scope_not_found" "Key scope was not found."

-- the project and the environment that an SDK key needs
abbrev pub sdk_scope : Option ℕ → Option ℕ → Result (ℕ × ℕ)
sdk_scope (some project_id) (some environment_id) = ok (project_id, environment_id)
sdk_scope _ _ = err (api 422 "invalid_sdk_key_scope" "SDK keys require project and environment.")

-- `payload.environment_id and not payload.project_id`
abbrev pub lacks_project : Option ℕ → Option ℕ → Bool
lacks_project (some environment_id) none = true
lacks_project _ _ = false

-- the tests of an SDK key, whose scopes are fixed
unfoldable pub sdk_scopes : ApiKeyCreate → Service → Result (List String)
sdk_scopes payload s = do
  (project_id, environment_id) ← sdk_scope payload.project_id payload.environment_id
  project ← or_raise (find_where (λ p. p.id == project_id) s.projects) scope_not_found
  environment ←
      or_raise (find_where (λ e. e.id == environment_id) s.db.environments) scope_not_found
  raise_if
      (not (project.organization_id == payload.organization_id)
        || not (environment.project_id == project.id))
      scope_not_found
  ok ("flags:read" ∷ "evaluate" ∷ [])

-- the tests of a management key, and `sorted(set(payload.scopes))`
unfoldable pub management_scopes : ApiKeyCreate → Result (List String)
unfolding unique_keys scope_names
management_scopes payload = do
  raise_if (lacks_project payload.environment_id payload.project_id)
      (api 422 "invalid_api_key_scope" "Environment scope requires project scope.")
  let scopes = sorted_texts (unique_keys [] (scope_names payload.scopes))
  raise_if (not (is_nonempty scopes))
      (api 422 "missing_scopes" "At least one management scope is required.")
  ok scopes

-- `text[:n]`
unfoldable pub text_take : ℕ → String → String
text_take zero s = ""
text_take (suc n) String.[] = ""
text_take (suc n) (String.◌∷◌ c s) = String.◌∷◌ c (text_take n s)

-- the start of a key, which its owner may see again
unfoldable pub display_prefix : String → String
unfolding text_take
display_prefix = text_take 14

-- `hash_secret` is SHA-256, and `drawn` what `secrets.token_urlsafe(32)` draws.
module _ (hash_secret : String → String) (drawn : String) (r : Request) where
  -- the scopes of the kind, and the key itself
  unfoldable pub key_of_kind : ApiKeyCreate → String → Service → Result (List String × String)
  unfolding sdk_scopes management_scopes
  key_of_kind payload kind s =
      if str_eq kind "SDK"
      then (do
        scopes ← sdk_scopes payload s
        ok (scopes, Prim.Native.String.◌++◌ "cs_sdk_live_" drawn))
      else if str_eq kind "MANAGEMENT"
      then (do
        scopes ← management_scopes payload
        ok (scopes, Prim.Native.String.◌++◌ "cs_api_live_" drawn))
      else err value_error

  abbrev pub new_key : ApiKeyCreate → String → List String → String → ℕ → ApiKey
  new_key payload kind scopes raw id = record {
    id = id;
    organization_id = payload.organization_id;
    project_id = payload.project_id;
    environment_id = payload.environment_id;
    name = payload.name;
    kind = kind;
    key_prefix = display_prefix raw;
    key_hash = hash_secret raw;
    scopes = scopes;
    last_used_at = none;
    revoked_at = none;
    created_by_id = r.principal.user_id;
    created_at = r.now;
  }

  abbrev pub created_of : ApiKey → String → ApiKeyCreated
  created_of key raw = record {
    id = key.id;
    name = key.name;
    kind = key.kind;
    key_prefix = key.key_prefix;
    key = raw;
    scopes = key.scopes;
    created_at = key.created_at;
  }

  -- what the creation writes
  abbrev pub add_key : ApiKeyCreate → ApiKey → Service → Service
  add_key payload key s = record s {
    api_keys = s.api_keys ++ (key ∷ []);
    db =
        audit r payload.organization_id "api_key.created" "api_key" key.id
          (("kind", str key.kind)
            ∷ ("prefix", str key.key_prefix)
            ∷ ("scopes", list (texts key.scopes))
            ∷ [])
          (record s.db { next_id = suc s.db.next_id });
  }

  -- The flush of the row tests its unique hash.
  unfoldable pub create_api_key : ApiKeyCreate → String → Service → Result (ApiKeyCreated × Service)
  unfolding key_of_kind
  create_api_key payload kind s = do
    (scopes, raw) ← key_of_kind payload kind s
    let key = new_key payload kind scopes raw s.db.next_id
    raise_if (any (λ k. str_eq k.key_hash key.key_hash) s.api_keys) integrity_error
    ok (created_of key raw, add_key payload key s)

  -- `_create_key_endpoint`
  unfoldable pub create_key_endpoint :
      ApiKeyCreate → String → Service → Result (ApiKeyCreated × Service)
  unfolding authorize_organization create_api_key
  create_key_endpoint payload kind s = do
    membership ← authorize_organization (tenants s) r.principal payload.organization_id key_manage
    create_api_key payload kind s

  unfoldable pub create_sdk_key : ApiKeyCreate → Service → Result (ApiKeyCreated × Service)
  unfolding create_key_endpoint
  create_sdk_key payload s = create_key_endpoint payload "SDK" s

  unfoldable pub create_management_key : ApiKeyCreate → Service → Result (ApiKeyCreated × Service)
  unfolding create_key_endpoint
  create_management_key payload s = create_key_endpoint payload "MANAGEMENT" s

-- the latest key first
unfoldable pub list_api_keys : Request → ℕ → Service → Result (List ApiKey)
unfolding authorize_organization sorted
list_api_keys r organization_id s = do
  membership ← authorize_organization (tenants s) r.principal organization_id key_manage
  ok (
      reverse (
        sorted (λ k. k.created_at)
          (select_where (λ k. k.organization_id == organization_id) s.api_keys)))

-- what revoking writes, by whether the key is active
unfoldable pub write_revoked : Bool → Request → ApiKey → Service → Service
write_revoked false r key s = s
write_revoked true r key s = record s {
  api_keys =
      update_where (λ k. k.id == key.id) (λ k. record k { revoked_at = some r.now }) s.api_keys;
  db =
      audit r key.organization_id "api_key.revoked" "api_key" key.id
        (("prefix", str key.key_prefix) ∷ []) s.db;
}

unfoldable pub revoke_api_key : Request → ℕ → Service → Result Service
unfolding authorize_organization write_revoked
revoke_api_key r key_id s = do
  key ←
      or_raise (find_where (λ k. k.id == key_id) s.api_keys)
        (api 404 "api_key_not_found" "API key was not found.")
  membership ← authorize_organization (tenants s) r.principal key.organization_id key_manage
  ok (write_revoked (is_none key.revoked_at) r key s)
