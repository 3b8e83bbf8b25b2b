-- ===== src/Database.antt =====
-- backend/app/database/models.py: the rows that the flag service reads and writes. A row holds the
-- rows of its relationships as lists; an id is a number, and a time is in microseconds.
use cohort_switch.Prelude.{ℕ, String, Option, Bool, List}
use cohort_switch.Evaluation.Value.{Value}
use cohort_switch.Evaluation.Models.{FlagType, FlagConfiguration}

pub record Project : Type 0 where
  pub id : ℕ
  pub organization_id : ℕ
  pub name : String
  pub slug : String

pub record Environment : Type 0 where
  pub id : ℕ
  pub project_id : ℕ
  pub key : String
  pub name : String
  pub revision : ℕ

pub record FeatureFlag : Type 0 where
  pub id : ℕ
  pub project_id : ℕ
  pub key : String
  pub name : String
  pub description : String
  pub flag_type : FlagType
  pub archived_at : Option ℕ

pub record FlagVariation : Type 0 where
  pub key : String
  pub value : Value

pub record RuleCondition : Type 0 where
  pub attribute : String
  pub operator : String
  pub value : Value

-- a row of `rollout_allocations`
pub record AllocationRow : Type 0 where
  pub variation_key : String
  pub end_bucket : ℕ

-- a row of `progressive_stages`
pub record StageRow : Type 0 where
  pub variation_key : String
  pub fallback_variation_key : String
  pub percentage_basis_points : ℕ
  pub activate_at : ℕ

-- a row of `targeting_rules`
pub record RuleRow : Type 0 where
  pub name : String
  pub priority : ℕ
  pub enabled : Bool
  pub serve_variation_key : Option String
  pub conditions : List RuleCondition
  pub rollouts : List AllocationRow
  pub progressive_stages : List StageRow

pub record FlagConfig : Type 0 where
  pub id : ℕ
  pub flag_id : ℕ
  pub environment_id : ℕ
  pub enabled : Bool
  pub default_variation_key : String
  pub current_version : ℕ
  pub salt : String
  pub variations : List FlagVariation
  pub rules : List RuleRow
  pub rollouts : List AllocationRow
  pub progressive_stages : List StageRow

-- The JSON of a snapshot is the configuration that was dumped into it.
pub record FlagVersion : Type 0 where
  pub config_id : ℕ
  pub version : ℕ
  pub snapshot : FlagConfiguration
  pub created_at : ℕ
  pub created_by_id : Option ℕ
  pub source_version : Option ℕ

pub record AuditEvent : Type 0 where
  pub organization_id : ℕ
  pub actor_user_id : Option ℕ
  pub actor_api_key_id : Option ℕ
  pub action : String
  pub resource_type : String
  pub resource_id : ℕ
  pub request_id : Option String
  pub metadata_json : List (String × Value)
  pub created_at : ℕ
