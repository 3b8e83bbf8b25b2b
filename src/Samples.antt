-- ===== src/Samples.antt =====
-- A flag, its environment and its actors, for the tests: a flag that is created and then updated.
pub mod Warm
pub mod Shop
use Prim.Native.Char.{char}
use Prim.Native.Nat
use cohort_switch.Prelude.{ℕ, zero, suc, ◌≡◌, refl, String, true, false, none, some, List, [], ◌∷◌}
use cohort_switch.Errors.{ok}
use cohort_switch.Runtime.{Runtime}
use cohort_switch.Schemas.{RolloutInput, RuleInput, FlagCreate, FlagUpdate, FlagResponse}
use cohort_switch.Evaluation.Value.{bool, str}
use cohort_switch.Evaluation.Models.{boolean}
use cohort_switch.Database.{Project, Environment, FeatureFlag}
use cohort_switch.Flags.Building.{ConfigInput}
use cohort_switch.Flags.Tables.{Db, Actor}
use cohort_switch.Flags.Store.{create_flag, update_flag}

-- A text of its own for each id.
abbrev pub marks : ℕ → String
marks zero = ""
marks (suc n) = String.◌∷◌ (char 120 tt) (marks n)

-- A stand-in for the code outside the repository.
abbrev pub stand_in : Runtime
stand_in = record {
  float_of_int = λ n. none;
  float_of_str = λ s. none;
  float_compare = λ x y. some (Prim.Native.Nat.compare x y);
  int_float_eq = λ n x. false;
  version_compare = λ a b. none;
  blake2b = λ m. m;
  uuid_str = marks;
}

abbrev pub percentages : List RolloutInput
percentages =
    record { variation = "on"; percentage_basis_points = 2500 }
    ∷ record { variation = "off"; percentage_basis_points = 7500 }
    ∷ []

abbrev pub kz_rule : RuleInput
kz_rule = record {
  name = "kz";
  priority = 1;
  conditions = record { attribute = "country"; operator = "equals"; value = str "KZ" } ∷ [];
  variation = some "on";
  rollout = [];
  progressive_stages = [];
}

abbrev pub beta_rule : RuleInput
beta_rule = record {
  name = "beta";
  priority = 0;
  conditions = [];
  variation = none;
  rollout = percentages;
  progressive_stages = [];
}

abbrev pub content : ConfigInput
content = record {
  enabled = true;
  default_variation = "off";
  variations =
      record { key = "on"; value = bool true } ∷ record { key = "off"; value = bool false } ∷ [];
  rules = kz_rule ∷ beta_rule ∷ [];
  rollout = percentages;
  progressive_stages = [];
}

abbrev pub production : Environment
production = record {
  id = 4;
  project_id = 2;
  key = "production";
  name = "Production";
  revision = 7;
}

abbrev pub shop : Project
shop = record { id = 2; organization_id = 1; name = "Shop"; slug = "shop" }

abbrev pub alice : Actor
alice = record { user_id = some 7; api_key_id = none; request_id = some "r1" }

abbrev pub empty_db : Db
empty_db = record {
  environments = production ∷ [];
  flags = [];
  configs = [];
  versions = [];
  audits = [];
  next_id = 5;
}

abbrev pub creation : FlagCreate
creation = record {
  environment_id = 4;
  key = "new_checkout";
  name = "Checkout";
  description = "";
  flag_type = boolean;
  enabled = false;
  default_variation = content.default_variation;
  variations = content.variations;
  rules = content.rules;
  rollout = content.rollout;
  progressive_stages = [];
}

abbrev pub new_checkout : FeatureFlag
new_checkout = record {
  id = 5;
  project_id = 2;
  key = "new_checkout";
  name = "Checkout";
  description = "";
  flag_type = boolean;
  archived_at = none;
}

abbrev pub change : FlagUpdate
change = record {
  environment_id = 4;
  expected_version = 1;
  name = some "New checkout";
  description = none;
  enabled = true;
  default_variation = content.default_variation;
  variations = content.variations;
  rules = content.rules;
  rollout = content.rollout;
  progressive_stages = [];
}

unfoldable pub run_create :
    (answer : FlagResponse) × (db : Db) × (create_flag stand_in 100 shop production alice "s"
        creation empty_db
      ≡ ok (answer, db))
unfolding create_flag
run_create = (_, _, refl)

unfoldable pub run_update :
    (answer : FlagResponse) × (db : Db) × (update_flag stand_in 200 shop production alice
        new_checkout change "flag.updated" none run_create.1
      ≡ ok (answer, db))
unfolding update_flag run_create
run_update = (_, _, refl)
