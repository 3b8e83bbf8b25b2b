-- ===== src/Flags/Store/Reachable.antt =====
-- backend/app/services/flags.py: the tables that the transactions reach from empty ones.
use cohort_switch.Prelude.{
  ℕ, suc, ◌<◌, ◌≡◌, refl, ap, subst, not, ◌&&◌, String, Option, none, some, List, [], ◌∷◌, ◌++◌,
  arith, All, All-append, any, ◌==◌, str_eq,
}
use cohort_switch.Errors.{ok, ok-injective, api, raise_if, >>=-eq-ok}
use cohort_switch.Runtime.{Runtime}
use cohort_switch.Schemas.{FlagCreate, FlagUpdate, FlagResponse}
use cohort_switch.Evaluation.Models.{FlagConfiguration, validate_configuration}
use cohort_switch.Evaluation.Models.Soundness.{IsSound}
use cohort_switch.Database.{Project, Environment, FeatureFlag, FlagConfig, FlagVersion}
use cohort_switch.Flags.Building.{build_configuration, update_from_configuration}
use cohort_switch.Flags.Building.Soundness.{build_configuration-IsSound}
use cohort_switch.Flags.Storage.{persist_children, response}
use cohort_switch.Flags.Tables.{Db, Actor, or_raise}
use cohort_switch.Flags.Store.{
  new_flag, first_row, find_version, input_of_create, write_create, create_flag, update_flag,
  rollback_flag,
}
use cohort_switch.Flags.Store.History.{HasHistory, HasHistory-other, HasHistory-first}
use cohort_switch.Flags.Store.Invariants.{
  IsConsistent, IsGoodVersion, built_version, update_flag-IsConsistent,
}

module _ {ℓ κ κ'} {A : Type ℓ} (P : A → Type κ) (Q : A → Type κ') where
  All-weaker : ((x : A) → P x → Q x) → (xs : List A) → All P xs → All Q xs
  All-weaker w [] h = tt
  All-weaker w (x ∷ xs) h = (w x h.0, All-weaker w xs h.1)

module _ {ℓ κ κ'} {A : Type ℓ} (P : A → Type κ) (Q : A → Type κ') where
  All-both : (xs : List A) → All P xs → All Q xs → All (λ x. P x × Q x) xs
  All-both [] h k = tt
  All-both (x ∷ xs) h k = ((h.0, k.0), All-both xs h.1 k.1)

module _ (rt : Runtime) (now : ℕ) (project : Project) (environment : Environment)
    (actor : Actor) where
  module _ (flag : FeatureFlag) (salt : String) (payload : FlagCreate)
      (compiled : FlagConfiguration) (db : Db) where
    abbrev first_version : FlagVersion
    first_version = record {
      config_id = suc db.next_id;
      version = 1;
      snapshot = compiled;
      created_at = now;
      created_by_id = actor.user_id;
      source_version = none;
    }

    created-IsConsistent :
        IsConsistent db
        → IsSound compiled
        → compiled.config_version ≡ 1
        → IsConsistent (write_create rt now project environment actor flag salt payload compiled db)
    unfolding write_create persist_children
    created-IsConsistent good sound numbered =
        let row =
          persist_children (first_row rt now project environment actor flag salt payload db)
            compiled in
        let versions = db.versions ++ (first_version ∷ []) in
        let fresh =
          All-weaker (λ (w : FlagVersion). w.config_id < db.next_id)
            (λ w. w.config_id < suc db.next_id) (λ w h. omega arith) db.versions good.recorded in
        record {
          histories =
              All-append (HasHistory versions) db.configs _
                (All-weaker (λ (c : FlagConfig). HasHistory db.versions c × (c.id < db.next_id))
                  (HasHistory versions)
                  (λ c h.
                    HasHistory-other first_version db.versions c h.0
                      (let low = h.1 in ground arith))
                  db.configs
                  (All-both (HasHistory db.versions) (λ c. c.id < db.next_id) db.configs
                    good.histories good.drawn))
                (HasHistory-first first_version db.versions row fresh refl refl refl, tt);
          drawn =
              All-append (λ (c : FlagConfig). c.id < suc (suc db.next_id)) db.configs _
                (All-weaker (λ (c : FlagConfig). c.id < db.next_id)
                  (λ c. c.id < suc (suc db.next_id)) (λ c h. omega arith) db.configs good.drawn)
                (omega arith, tt);
          recorded =
              All-append (λ (w : FlagVersion). w.config_id < suc (suc db.next_id)) db.versions _
                (All-weaker (λ (w : FlagVersion). w.config_id < db.next_id)
                  (λ w. w.config_id < suc (suc db.next_id)) (λ w h. omega arith) db.versions
                  good.recorded)
                (omega arith, tt);
          snapshots = All-append IsGoodVersion db.versions _ good.snapshots ((sound, numbered), tt);
        }

  create_flag-IsConsistent :
      (salt : String) (payload : FlagCreate) (db : Db) (answer : FlagResponse) (db' : Db)
      → IsConsistent db
      → create_flag rt now project environment actor salt payload db ≡ ok (answer, db')
      → IsConsistent db'
  unfolding create_flag
  create_flag-IsConsistent salt payload db answer db' good h =
      let flag = new_flag rt now project environment actor payload db in
      let input = input_of_create rt now project environment actor payload in
      let (u₁, h₁, r₁) =
        >>=-eq-ok
          (raise_if (not (environment.project_id == project.id))
            (api 404 "environment_not_found" "Environment was not found."))
          _ h in
      let (u₂, h₂, r₂) =
        >>=-eq-ok
          (raise_if (any (λ f. f.project_id == project.id && str_eq f.key payload.key) db.flags)
            (api 409 "flag_key_exists" "A flag with this immutable key already exists."))
          _ r₁ in
      let (compiled, h₃, r₃) =
        >>=-eq-ok (build_configuration rt project.id environment flag input 1 salt) _ r₂ in
      let (answer', h₄, r₄) = >>=-eq-ok (response flag environment.id compiled) _ r₃ in
      subst IsConsistent (ap (λ p. p.1) (ok-injective r₄)) (
        created-IsConsistent flag salt payload compiled db good
          (build_configuration-IsSound rt project.id environment flag input 1 salt h₃)
          (built_version rt project.id environment flag input 1 salt h₃))

  rollback_flag-IsConsistent :
      (flag : FeatureFlag) (target expected : ℕ) (db : Db) (answer : FlagResponse) (db' : Db)
      → IsConsistent db
      → rollback_flag rt now project environment actor flag target expected db ≡ ok (answer, db')
      → IsConsistent db'
  unfolding rollback_flag
  rollback_flag-IsConsistent flag target expected db answer db' good h =
      let (version, h₁, r₁) =
        >>=-eq-ok
          (or_raise {A = FlagVersion} (find_version rt now project environment actor flag target db)
            (api 404 "version_not_found" "Flag version was not found."))
          _ h in
      let (old, h₂, r₂) = >>=-eq-ok (validate_configuration version.snapshot) _ r₁ in
      let (payload, h₃, r₃) =
        >>=-eq-ok (update_from_configuration old environment.id expected) _ r₂ in
      update_flag-IsConsistent rt now project environment actor flag payload "flag.rollback"
        (some target) db answer db' good r₃

-- The rows that transactions reach. Each of them is made by an actor of its own, at a time of its own.
pub data Reachable (rt : Runtime) : Db → Type 0 where
  start :
      (environments : List Environment) (next_id : ℕ)
      → Reachable rt (record {
        environments = environments;
        flags = [];
        configs = [];
        versions = [];
        audits = [];
        next_id = next_id;
      })
  created :
      {db db' : Db} (now : ℕ) (project : Project) (environment : Environment) (actor : Actor)
      (salt : String) (payload : FlagCreate) (answer : FlagResponse)
      → Reachable rt db
      → create_flag rt now project environment actor salt payload db ≡ ok (answer, db')
      → Reachable rt db'
  updated :
      {db db' : Db} (now : ℕ) (project : Project) (environment : Environment) (actor : Actor)
      (flag : FeatureFlag) (payload : FlagUpdate) (action : String) (source : Option ℕ)
      (answer : FlagResponse)
      → Reachable rt db
      → update_flag rt now project environment actor flag payload action source db
        ≡ ok (answer, db')
      → Reachable rt db'
  rolled_back :
      {db db' : Db} (now : ℕ) (project : Project) (environment : Environment) (actor : Actor)
      (flag : FeatureFlag) (target expected : ℕ) (answer : FlagResponse)
      → Reachable rt db
      → rollback_flag rt now project environment actor flag target expected db ≡ ok (answer, db')
      → Reachable rt db'

-- Rows that are reached from empty tables by creating, updating and rolling back flags are consistent:
-- the versions of every configuration are 1, 2 and so on up to its current one, and every snapshot is
-- sound and carries its version.
pub Reachable-IsConsistent : (rt : Runtime) {db : Db} → Reachable rt db → IsConsistent db
Reachable-IsConsistent rt (start environments next_id) = record {
  histories = tt;
  drawn = tt;
  recorded = tt;
  snapshots = tt;
}
Reachable-IsConsistent rt (created now project environment actor salt payload answer before e) =
    create_flag-IsConsistent rt now project environment actor salt payload _ answer _
      (Reachable-IsConsistent rt before) e
Reachable-IsConsistent rt
      (updated now project environment actor flag payload action source answer before e) =
    update_flag-IsConsistent rt now project environment actor flag payload action source _ answer _
      (Reachable-IsConsistent rt before) e
Reachable-IsConsistent rt
      (rolled_back now project environment actor flag target expected answer before e) =
    rollback_flag-IsConsistent rt now project environment actor flag target expected _ answer _
      (Reachable-IsConsistent rt before) e
