-- ===== src/Flags/Tables.antt =====
-- The tables of the flag service, and what its statements do to them; `record_audit` of
-- backend/app/services/audit.py.
use cohort_switch.Prelude.{
  ℕ, ◌+◌, String, Option, none, some, Bool, true, false, ◌&&◌, List, [], ◌∷◌, ◌++◌, ◌==◌,
  if◌then◌else◌,
}
use cohort_switch.Prelude.Int.{pos}
use cohort_switch.Errors.{Error, Result, ok, err}
use cohort_switch.Evaluation.Value.{Value, int}
use cohort_switch.Database.{Environment, FeatureFlag, FlagConfig, FlagVersion, AuditEvent}

-- The tables of the flag service. `next_id` is above every id that has been drawn.
pub record Db : Type 0 where
  pub environments : List Environment
  pub flags : List FeatureFlag
  pub configs : List FlagConfig
  pub versions : List FlagVersion
  pub audits : List AuditEvent
  pub next_id : ℕ

-- Who makes a request.
pub record Actor : Type 0 where
  pub user_id : Option ℕ
  pub api_key_id : Option ℕ
  pub request_id : Option String

module _ {ℓ} {A : Type ℓ} where
  -- `UPDATE ... WHERE`
  abbrev pub update_where : (A → Bool) → (A → A) → List A → List A
  update_where p f [] = []
  update_where p f (x ∷ xs) = (if p x then f x else x) ∷ update_where p f xs

  -- `SELECT ... WHERE`, the first row
  abbrev pub find_where : (A → Bool) → List A → Option A
  find_where p [] = none
  find_where p (x ∷ xs) = if p x then some x else find_where p xs

  -- `SELECT ... WHERE`, every row
  abbrev pub select_where : (A → Bool) → List A → List A
  select_where p [] = []
  select_where p (x ∷ xs) = if p x then x ∷ select_where p xs else select_where p xs

abbrev pub is_none {ℓ} : {A : Type ℓ} → Option A → Bool
is_none none = true
is_none (some a) = false

-- `raise` where a row is missing
abbrev pub or_raise {ℓ} : {A : Type ℓ} → Option A → Error → Result A
or_raise none e = err e
or_raise (some a) e = ok a

abbrev pub serves_pair : ℕ → ℕ → FlagConfig → Bool
serves_pair flag_id environment_id c = c.flag_id == flag_id && c.environment_id == environment_id

-- the WHERE clause of the compare-and-set
abbrev pub is_at : ℕ → ℕ → FlagConfig → Bool
is_at id version c = c.id == id && c.current_version == version

-- `record_audit`
unfoldable pub record_audit :
    ℕ → ℕ → String → String → ℕ → Actor → List (String × Value) → List AuditEvent → List AuditEvent
record_audit now organization_id action resource_type resource_id actor metadata audits =
    audits
    ++ (record {
      organization_id = organization_id;
      actor_user_id = actor.user_id;
      actor_api_key_id = actor.api_key_id;
      action = action;
      resource_type = resource_type;
      resource_id = resource_id;
      request_id = actor.request_id;
      metadata_json = metadata;
      created_at = now;
    }
        ∷ [])

abbrev pub source_entry : Option ℕ → List (String × Value)
source_entry none = []
source_entry (some v) = if v == 0 then [] else ("source_version", int (pos v)) ∷ []

-- The `UPDATE` of the environment and the assignment to its object each add one; the endpoint then
-- sets the revision.
abbrev pub bump : Environment → Environment
bump e = record e { revision = e.revision + 1 }
