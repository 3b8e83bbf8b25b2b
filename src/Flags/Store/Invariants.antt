-- ===== src/Flags/Store/Invariants.antt =====
-- backend/app/services/flags.py: the consistency of the tables, across `update_flag`.
use cohort_switch.Prelude.{
  ℕ, ◌+◌, ◌<◌, ◌≡◌, refl, sym, ap, subst, true, false, String, Option, [], ◌∷◌, ◌++◌, arith, All,
  All-append, any, ◌==◌,
}
use cohort_switch.Errors.{ok, Ensures-at}
use cohort_switch.Runtime.{Runtime}
use cohort_switch.Schemas.{FlagUpdate, FlagResponse}
use cohort_switch.Evaluation.Models.{FlagConfiguration}
use cohort_switch.Evaluation.Models.Soundness.{IsSound}
use cohort_switch.Database.{Project, Environment, FeatureFlag, FlagConfig, FlagVersion}
use cohort_switch.Flags.Building.{ConfigInput, build_configuration, input_of_update}
use cohort_switch.Flags.Building.Soundness.{
  IsBuilt, build_configuration-IsBuilt, build_configuration-IsSound,
}
use cohort_switch.Flags.Storage.{delete_children, persist_children}
use cohort_switch.Flags.Tables.{Db, Actor, is_at, serves_pair}
use cohort_switch.Flags.Store.{rewrite_row, write_update, update_flag}
use cohort_switch.Flags.Store.Lists.{All-update_where, All-find_where}
use cohort_switch.Flags.Store.History.{
  HasHistory, history_of_match, current_of_match, HasHistory-extended, HasHistory-other,
}
use cohort_switch.Flags.Store.Updates.{update_flag-HasUpdated}

-- A snapshot that is sound and carries the number of its version.
abbrev pub IsGoodVersion : FlagVersion → Type 0
IsGoodVersion v = IsSound v.snapshot × (v.snapshot.config_version ≡ v.version)

pub record IsConsistent (db : Db) : Type 0 where
  pub histories : All (HasHistory db.versions) db.configs
  pub drawn : All (λ c. c.id < db.next_id) db.configs
  pub recorded : All (λ v. v.config_id < db.next_id) db.versions
  pub snapshots : All IsGoodVersion db.versions

is_at_hit :
    (id version : ℕ) (c : FlagConfig)
    → is_at id version c ≡ true
    → (c.id ≡ id) × (c.current_version ≡ version)
is_at_hit id version c h = ground arith

is_at_miss :
    (id version : ℕ) (c : FlagConfig)
    → is_at id version c ≡ false
    → (c.id ≡ id → c.current_version ≡ version)
    → (id == c.id) ≡ false
is_at_miss id version c h at = ground arith

pub built_version :
    (rt : Runtime) (project_id : ℕ) (environment : Environment) (flag : FeatureFlag)
    (input : ConfigInput) (version : ℕ) (salt : String) {c : FlagConfiguration}
    → build_configuration rt project_id environment flag input version salt ≡ ok c
    → c.config_version ≡ version
built_version rt project_id environment flag input version salt e =
    ap (λ (d : FlagConfiguration). d.config_version)
      (Ensures-at (IsBuilt rt project_id environment flag input version salt) _ e
        (build_configuration-IsBuilt rt project_id environment flag input version salt)).form

module _ (rt : Runtime) (now : ℕ) (project : Project) (environment : Environment) (actor : Actor)
    (flag : FeatureFlag) (payload : FlagUpdate) (action : String) (source : Option ℕ)
    (db : Db) where
  abbrev version_row : FlagConfig → FlagConfiguration → FlagVersion
  version_row config compiled = record {
    config_id = config.id;
    version = payload.expected_version + 1;
    snapshot = compiled;
    created_at = now;
    created_by_id = actor.user_id;
    source_version = source;
  }

  written-IsConsistent :
      (config : FlagConfig) (compiled : FlagConfiguration)
      → IsConsistent db
      → config.id < db.next_id
      → any (is_at config.id payload.expected_version) db.configs ≡ true
      → IsSound compiled
      → compiled.config_version ≡ payload.expected_version + 1
      → IsConsistent (
          write_update rt now project environment actor flag config payload compiled action source
            db)
  unfolding write_update rewrite_row persist_children delete_children
  written-IsConsistent config compiled good low matched sound numbered =
      let found =
        history_of_match config.id payload.expected_version db.versions db.configs good.histories
          matched in
      record {
        histories =
            All-update_where (HasHistory db.versions)
              (HasHistory (db.versions ++ ((version_row config compiled) ∷ [])))
              (is_at config.id payload.expected_version) (rewrite_row payload compiled)
              (λ x h m.
                HasHistory-extended ((version_row config compiled)) db.versions x
                  (rewrite_row payload compiled x) h refl
                  (sym (is_at_hit config.id payload.expected_version x m).0)
                  (ap (λ n. n + 1) (sym (is_at_hit config.id payload.expected_version x m).1))
                  (ap (λ n. n + 1) (sym (is_at_hit config.id payload.expected_version x m).1)))
              (λ x h m. HasHistory-other ((version_row config compiled)) db.versions x h (
                is_at_miss config.id payload.expected_version x m
                  (current_of_match config.id payload.expected_version db.versions x found h)))
              db.configs good.histories;
        drawn =
            All-update_where (λ c. c.id < db.next_id) (λ c. c.id < db.next_id)
              (is_at config.id payload.expected_version) (rewrite_row payload compiled) (λ x h m. h)
              (λ x h m. h) db.configs good.drawn;
        recorded = All-append _ db.versions _ good.recorded (low, tt);
        snapshots = All-append IsGoodVersion db.versions _ good.snapshots ((sound, numbered), tt);
      }

  -- An update that returns leaves consistent rows consistent: the versions of every configuration are
  -- 1, 2 and so on up to its current one, and every snapshot is sound and carries its version.
  pub update_flag-IsConsistent :
      (answer : FlagResponse) (db' : Db)
      → IsConsistent db
      → update_flag rt now project environment actor flag payload action source db
        ≡ ok (answer, db')
      → IsConsistent db'
  update_flag-IsConsistent answer db' good e =
      let updated =
        update_flag-HasUpdated rt now project environment actor flag payload action source db answer
          db' e in
      let input = input_of_update payload in
      let version = payload.expected_version + 1 in
      let salt = updated.config.salt in
      subst IsConsistent (sym updated.written) (
        written-IsConsistent updated.config updated.compiled good
          (All-find_where (λ c. c.id < db.next_id) (serves_pair flag.id environment.id) db.configs
            good.drawn updated.found)
          updated.matched
          (build_configuration-IsSound rt project.id environment flag input version salt
            updated.built)
          (built_version rt project.id environment flag input version salt updated.built))
