-- ===== src/Flags/Store/Tests.antt =====
-- A flag that is created, updated and rolled back, and the theorems on its history.
use cohort_switch.Prelude.{◌≡◌, refl, none, some, [], ◌∷◌}
use cohort_switch.Errors.{Error, ok, err}
use cohort_switch.Schemas.{FlagResponse}
use cohort_switch.Evaluation.Models.{FlagConfiguration}
use cohort_switch.Database.{FlagConfig}
use cohort_switch.Flags.Building.{build_configuration, input_of_update}
use cohort_switch.Flags.Tables.{Db, find_where, serves_pair}
use cohort_switch.Flags.Store.{update_flag, rollback_flag}
use cohort_switch.Flags.Store.Invariants.{IsConsistent}
use cohort_switch.Flags.Store.Conflicts.{conflict, update_flag_once, update_flag_told}
use cohort_switch.Flags.Store.Reachable.{
  Reachable, start, created, updated, rolled_back, Reachable-IsConsistent,
}
use cohort_switch.Samples.{
  stand_in, production, shop, alice, creation, new_checkout, change, run_create, run_update,
}

run_rollback :
    (answer : FlagResponse) × (db : Db) × (rollback_flag stand_in 300 shop production alice
        new_checkout 1 2 run_update.1
      ≡ ok (answer, db))
unfolding rollback_flag run_update run_create
run_rollback = (_, _, refl)

rolled_back_db : Reachable stand_in run_rollback.1
rolled_back_db =
    rolled_back 300 shop production alice new_checkout 1 2 run_rollback.0
      (updated 200 shop production alice new_checkout change "flag.updated" none run_update.0
        (created 100 shop production alice "s" creation run_create.0 (start (production ∷ []) 5)
          run_create.2)
        run_update.2)
      run_rollback.2

Reachable-IsConsistent_example : IsConsistent run_rollback.1
Reachable-IsConsistent_example = Reachable-IsConsistent stand_in rolled_back_db

update_flag_once_example :
    (e : Error) × (update_flag stand_in 201 shop production alice new_checkout change "flag.updated"
        none run_update.1
      ≡ err e)
update_flag_once_example =
    update_flag_once stand_in 200 201 shop shop production production alice alice new_checkout
      new_checkout change change "flag.updated" "flag.updated" none none run_create.1 run_update.1
      run_update.0 run_update.2 refl refl refl

created_db : Reachable stand_in run_create.1
created_db =
    created 100 shop production alice "s" creation run_create.0 (start (production ∷ []) 5)
      run_create.2

found_row :
    (config : FlagConfig) × (find_where (serves_pair 5 4) run_update.1.configs ≡ some config)
unfolding run_update run_create
found_row = (_, refl)

rebuilt :
    (compiled : FlagConfiguration) × (build_configuration stand_in 2 production new_checkout
        (input_of_update change)
        2
        found_row.0.salt
      ≡ ok compiled)
unfolding build_configuration found_row
rebuilt = (_, refl)

update_flag_told_example :
    update_flag stand_in 201 shop production alice new_checkout change "flag.updated" none
      run_update.1
    ≡ err (conflict (some 2))
update_flag_told_example =
    update_flag_told stand_in 200 201 shop shop production production alice alice new_checkout
      new_checkout change change "flag.updated" "flag.updated" none none run_create.1 run_update.1
      run_update.0 run_update.2 refl refl refl (Reachable-IsConsistent stand_in created_db)
      found_row.0 found_row.1 refl rebuilt.0 rebuilt.1
