-- ===== src/Flags/Store/Conflicts.antt =====
-- backend/app/services/flags.py: two calls of `update_flag` that expect one version.
use cohort_switch.Prelude.{
  ℕ, ◌+◌, ◌≡◌, refl, sym, ◌∙◌, ap, subst, Bool, true, false, String, Option, none, some, List, [],
  ◌∷◌, arith, All, any, ◌==◌, if◌then◌else◌,
}
use mathlib.Core.Option
use cohort_switch.Errors.{Error, Result, ok, err, api_error, current_version}
use cohort_switch.Runtime.{Runtime}
use cohort_switch.Schemas.{FlagUpdate, FlagResponse}
use cohort_switch.Evaluation.Models.{FlagConfiguration}
use cohort_switch.Database.{Project, Environment, FeatureFlag, FlagConfig}
use cohort_switch.Flags.Building.{build_configuration, input_of_update}
use cohort_switch.Flags.Storage.{delete_children, persist_children}
use cohort_switch.Flags.Tables.{Db, Actor, update_where, find_where, is_at, serves_pair}
use cohort_switch.Flags.Store.{rewrite_row, write_update, update_flag}
use cohort_switch.Flags.Store.Lists.{
  All-update_where, any_of_none, find_where-update_where, find_where_of_any, All-find_where,
  find_where-test, some-injective,
}
use cohort_switch.Flags.Store.History.{HasHistory, history_of_match, current_of_match}
use cohort_switch.Flags.Store.Updates.{HasUpdated, update_flag-HasUpdated}
use cohort_switch.Flags.Store.Invariants.{IsConsistent}

-- The answer to a writer whose version is no longer the current one.
abbrev pub conflict : Option ℕ → Error
conflict current =
    api_error 409 "configuration_conflict" "The flag configuration was changed by another writer."
      (current_version current)

All-true {ℓ} : {A : Type ℓ} (xs : List A) → All (λ _. Unit {0}) xs
All-true [] = tt
All-true (x ∷ xs) = (tt, All-true xs)

rewrite_row_keeps :
    (payload : FlagUpdate) (compiled : FlagConfiguration) (c : FlagConfig) (b : Bool)
    → (if b then rewrite_row payload compiled c else c).id ≡ c.id
unfolding rewrite_row persist_children delete_children
rewrite_row_keeps payload compiled c b = ground arith

module _ (rt : Runtime) (now : ℕ) (project : Project) (environment : Environment) (actor : Actor)
    (flag : FeatureFlag) (payload : FlagUpdate) (action : String) (source : Option ℕ) (db db' : Db)
    (updated : HasUpdated rt now project environment actor flag payload action source db db') where
  abbrev id : ℕ
  id = updated.config.id

  abbrev rewrite : FlagConfig → FlagConfig
  rewrite = rewrite_row payload updated.compiled

  configs_updated :
      db'.configs ≡ update_where (is_at id payload.expected_version) rewrite db.configs
  unfolding write_update
  configs_updated = ap (λ (d : Db). d.configs) updated.written

  -- No row is left at the version that was expected.
  pub none_left : any (is_at id payload.expected_version) db'.configs ≡ false
  unfolding rewrite_row persist_children delete_children
  none_left =
      ap (any (is_at id payload.expected_version)) configs_updated
      ∙ any_of_none (is_at id payload.expected_version) _ (
          All-update_where (λ _. Unit {0}) (λ c. is_at id payload.expected_version c ≡ false)
            (is_at id payload.expected_version) rewrite (λ x _ m. ground arith) (λ x _ m. m)
            db.configs (All-true db.configs))

  -- The row that serves the flag in the environment keeps its id.
  pub same_row :
      (config : FlagConfig) × (config.id ≡ id)
      × (find_where (serves_pair flag.id environment.id) db'.configs ≡ some config)
  unfolding rewrite_row persist_children delete_children
  same_row =
      let b = is_at id payload.expected_version updated.config in
      (
        (if b then rewrite updated.config else updated.config),
        rewrite_row_keeps payload updated.compiled updated.config b,
        ap (find_where (serves_pair flag.id environment.id)) configs_updated
            ∙ find_where-update_where (serves_pair flag.id environment.id) _ rewrite (λ x. refl)
                db.configs updated.found,
      )

  -- The current version that a later writer is told.
  pub told :
      IsConsistent db
      → Option.map (λ c. c.current_version) (find_where (λ c. c.id == id) db'.configs)
        ≡ some (payload.expected_version + 1)
  unfolding rewrite_row persist_children delete_children
  told good =
      let (row, found) =
        find_where_of_any (λ c. c.id == id) (is_at id payload.expected_version)
          (λ x m. ground arith) db.configs updated.matched in
      let own : row.id ≡ id =
        let t = find_where-test (λ c. c.id == id) db.configs found in ground arith in
      let history =
        history_of_match id payload.expected_version db.versions db.configs good.histories
          updated.matched in
      let current =
        current_of_match id payload.expected_version db.versions row history
          (All-find_where (HasHistory db.versions) (λ c. c.id == id) db.configs good.histories
            found)
          own in
      let hit : is_at id payload.expected_version row ≡ true = ground arith in
      ap (λ cs. Option.map (λ c. c.current_version) (find_where (λ c. c.id == id) cs))
        configs_updated
      ∙ ap (Option.map (λ (c : FlagConfig). c.current_version)) (
          find_where-update_where (λ c. c.id == id) (is_at id payload.expected_version) rewrite
            (λ x. refl) db.configs found)
      ∙ ap (λ b. some (if b then rewrite row else row).current_version) hit

module _ (rt : Runtime) (now now₂ : ℕ) (project project₂ : Project)
    (environment environment₂ : Environment) (actor actor₂ : Actor) (flag flag₂ : FeatureFlag)
    (payload payload₂ : FlagUpdate) (action action₂ : String) (source source₂ : Option ℕ)
    (db db' : Db) (answer : FlagResponse)
    (first : update_flag rt now project environment actor flag payload action source db
      ≡ ok (answer, db'))
    (same_flag : flag₂.id ≡ flag.id) (same_environment : environment₂.id ≡ environment.id)
    (same_version : payload₂.expected_version ≡ payload.expected_version) where
  abbrev second : Result (FlagResponse × Db)
  second = update_flag rt now₂ project₂ environment₂ actor₂ flag₂ payload₂ action₂ source₂ db'

  abbrev first_updated :
      HasUpdated rt now project environment actor flag payload action source db db'
  first_updated =
      update_flag-HasUpdated rt now project environment actor flag payload action source db answer
        db' first

  second_pair :
      (config : FlagConfig)
      → find_where (serves_pair flag₂.id environment₂.id) db'.configs ≡ some config
      → config.id ≡ first_updated.config.id
  second_pair config found =
      let (row, same, found') =
        same_row rt now project environment actor flag payload action source db db' first_updated in
      let e : find_where (serves_pair flag.id environment.id) db'.configs ≡ some config =
        subst (λ i. find_where (serves_pair i environment.id) db'.configs ≡ some config) same_flag
          (subst (λ i. find_where (serves_pair flag₂.id i) db'.configs ≡ some config)
            same_environment found) in
      ap (λ (c : FlagConfig). c.id) (some-injective (sym e ∙ found')) ∙ same

  second_misses :
      (config : FlagConfig)
      → find_where (serves_pair flag₂.id environment₂.id) db'.configs ≡ some config
      → any (is_at config.id payload₂.expected_version) db'.configs ≡ false
  second_misses config found =
      rw (second_pair config found, same_version)
        (none_left rt now project environment actor flag payload action source db db' first_updated)

  -- After an update that was written, another update of the same flag and environment that expects
  -- the same version raises an error, so it writes nothing.
  pub update_flag_once : (e : Error) × (second ≡ err e)
  update_flag_once = decide second refl
    where
      decide :
          (outcome : Result (FlagResponse × Db)) → second ≡ outcome → (e : Error) × (second ≡ err e)
      decide (err e) eq = (e, eq)
      decide (ok (answer₂, db₂)) eq =
          let updated =
            update_flag-HasUpdated rt now₂ project₂ environment₂ actor₂ flag₂ payload₂ action₂
              source₂ db' answer₂ db₂ eq in
          absurd
            (let m = second_misses updated.config updated.found in let m' = updated.matched in cc)

  -- After an update that was written to consistent rows, another update of the same flag and
  -- environment that expects the same version, with a flag that is not archived and a payload that
  -- builds, is told in a 409 that the current version is one above the expected.
  pub update_flag_told :
      IsConsistent db
      → (config : FlagConfig)
      → find_where (serves_pair flag₂.id environment₂.id) db'.configs ≡ some config
      → flag₂.archived_at ≡ none
      → (compiled : FlagConfiguration)
      → build_configuration rt project₂.id environment₂ flag₂
          (input_of_update payload₂)
          (payload₂.expected_version + 1)
          config.salt
        ≡ ok compiled
      → second ≡ err (conflict (some (payload.expected_version + 1)))
  unfolding update_flag
  update_flag_told good config found active compiled built =
      let misses = second_misses config found in
      let heard =
        ap
          (λ i.
            Option.map (λ (c : FlagConfig). c.current_version)
              (find_where (λ c. c.id == i) db'.configs))
          (second_pair config found)
        ∙ told rt now project environment actor flag payload action source db db' first_updated
            good in
      rw (found, active, built, misses, heard) refl
