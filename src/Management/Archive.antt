-- ===== src/Management/Archive.antt =====
-- backend/app/api/management.py: what `archive_flag` leaves behind.
use cohort_switch.Prelude.{
  ℕ, ◌≡◌, refl, sym, ap, ◌∙◌, subst, String, Option, none, some, true, false, not, List, [], ◌∷◌,
  ◌==◌, inl, inr, arith, All, IsIn, Option-cases, ◌⊎◌,
}
use cohort_switch.Errors.{Result, ok, err, raise_if, ok-injective, >>=-eq-ok, ◌>>=◌, ◌>>◌}
use cohort_switch.Runtime.{Runtime}
use cohort_switch.Database.{Project, Environment, FeatureFlag, FlagConfig}
use cohort_switch.Permissions.{flag_write}
use cohort_switch.Access.{authorize_project}
use cohort_switch.Flags.Tables.{Db, find_where, or_raise, is_none}
use cohort_switch.Flags.Store.Lists.{
  All-update_where, All-find_where, find_where-test, or_raise-eq-ok, mem-find_where, some-injective,
}
use cohort_switch.Flags.Lookup.{
  Loaded, load_row, loaded_rows, load_with, add_row, is_row_of, flag_not_found,
  get_config_by_flag_environment,
}
use cohort_switch.Cache.{Call}
use cohort_switch.Management.{Service, Request, tenants}
use cohort_switch.Management.Flags.{
  RuleCreate, ScheduledChangeCreate, get_flag, flag_versions, add_targeting_rule, schedule_change,
  get_row, config_rows, notify_gone, notify_all, write_archive, archive_flag,
}

-- Every row of the flag is archived.
abbrev pub IsArchived : ℕ → List FeatureFlag → Type 0
IsArchived flag_id = All (λ f. (f.id == flag_id) ≡ true → is_none f.archived_at ≡ false)

-- What is loaded with a configuration is the flag that it names.
load_row-flag :
    (db : Db) (c : FlagConfig) {l : Loaded}
    → load_row db c ≡ some l
    → find_where (λ f. f.id == l.config.flag_id) db.flags ≡ some l.flag
load_row-flag db c h =
    by_rows (find_where (λ f. f.id == c.flag_id) db.flags)
      (find_where (λ e. e.id == c.environment_id) db.environments) refl h
  where
    by_rows :
        (found : Option FeatureFlag) (place : Option Environment) {l : Loaded}
        → find_where (λ f. f.id == c.flag_id) db.flags ≡ found
        → load_with c found place ≡ some l
        → find_where (λ f. f.id == l.config.flag_id) db.flags ≡ some l.flag
    by_rows (some f) (some e) at h =
        subst (λ (m : Loaded). find_where (λ g. g.id == m.config.flag_id) db.flags ≡ some m.flag)
          (some-injective h) at
    by_rows (some f) none at h = absurd (cc)
    by_rows none place at h = absurd (cc)

added-flag :
    (db : Db) (found : Option Loaded) (rows : List Loaded) (l : Loaded)
    → IsIn l (add_row found rows)
    → (found ≡ some l) ⊎ IsIn l rows
added-flag db none rows l i = inr i
added-flag db (some m) rows l (inl e) = inl (ap some (sym e))
added-flag db (some m) rows l (inr i) = inr i

loaded_rows-flag :
    (db : Db) (configs : List FlagConfig) (l : Loaded)
    → IsIn l (loaded_rows db configs)
    → find_where (λ f. f.id == l.config.flag_id) db.flags ≡ some l.flag
loaded_rows-flag db [] l i = elim i [ ]
loaded_rows-flag db (c ∷ configs) l i =
    elim (added-flag db (load_row db c) (loaded_rows db configs) l i) [
      | inl here ↦ load_row-flag db c here
      | inr there ↦ loaded_rows-flag db configs l there
    ]

-- No configuration of an archived flag is found.
pub get_config_by_flag_environment-archived :
    (flag_id environment_id : ℕ) (db : Db)
    → IsArchived flag_id db.flags
    → get_config_by_flag_environment flag_id environment_id db ≡ err flag_not_found
unfolding get_config_by_flag_environment
get_config_by_flag_environment-archived flag_id environment_id db archived =
    let test = is_row_of flag_id environment_id in
    let rows = loaded_rows db db.configs in
    let outcome = λ (o : Option Loaded). or_raise o flag_not_found >>= λ config.
    raise_if (not (is_none config.flag.archived_at)) flag_not_found >> ok config in
    elim (Option-cases (find_where test rows)) [
      | inl away ↦ ap outcome away
      | inr (l, found) ↦
          let passed = find_where-test test rows found in
          let named : l.config.flag_id ≡ flag_id = ground arith in
          let its = loaded_rows-flag db db.configs l (mem-find_where test rows found) in
          let it_is = find_where-test (λ f. f.id == l.config.flag_id) db.flags its in
          let gone =
            All-find_where (λ f. (f.id == flag_id) ≡ true → is_none f.archived_at ≡ false)
              (λ f. f.id == l.config.flag_id) db.flags archived its
              (subst (λ n. (l.flag.id == n) ≡ true) named it_is) in
          ap outcome found ∙ rw gone refl
    ]

flags_trivial : (flags : List FeatureFlag) → All (λ f. Unit {0}) flags
flags_trivial [] = tt
flags_trivial (f ∷ flags) = (tt, flags_trivial flags)

module _ (rt : Runtime) (del publish : Call) (r : Request) where
  notify_gone-db :
      (project_id : ℕ) (flag_key : String) (version : ℕ) (place : Option Environment) (s : Service)
      → (notify_gone rt del publish r project_id flag_key version place s).db ≡ s.db
  notify_gone-db project_id flag_key version none s = refl
  notify_gone-db project_id flag_key version (some e) s = refl

  notify_all-db :
      (project_id : ℕ) (flag_key : String) (configs : List FlagConfig) (s : Service)
      → (notify_all rt del publish r project_id flag_key configs s).db ≡ s.db
  unfolding notify_all
  notify_all-db project_id flag_key [] s = refl
  notify_all-db project_id flag_key (c ∷ configs) s =
      notify_all-db project_id flag_key configs _
      ∙ notify_gone-db project_id flag_key c.current_version
          (find_where (λ e. e.id == c.environment_id) s.db.environments) s

  write_archive-IsArchived :
      (organization_id : ℕ) (flag : FeatureFlag) (s : Service)
      → IsArchived flag.id (write_archive rt del publish r organization_id flag s).flags
  unfolding write_archive
  write_archive-IsArchived organization_id flag s =
      All-update_where (λ f. Unit {0}) _ (λ f. f.id == flag.id)
        (λ f. record f { archived_at = some r.now }) (λ f t same same'. refl)
        (λ f t other same. absurd (cc)) s.db.flags (flags_trivial s.db.flags)

  -- Once a flag is archived, no configuration of it is found in the database.
  pub archive_flag-gone :
      (flag_id : ℕ) (s : Service) {s' : Service}
      → archive_flag rt del publish r flag_id s ≡ ok s'
      → (environment_id : ℕ)
      → get_config_by_flag_environment flag_id environment_id s'.db ≡ err flag_not_found
  unfolding archive_flag
  archive_flag-gone flag_id s h environment_id =
      let (flag, h₁, r₁) = >>=-eq-ok (or_raise (get_row flag_id s.db) flag_not_found) _ h in
      let (u, h₂, r₂) = >>=-eq-ok (raise_if (not (is_none flag.archived_at)) flag_not_found) _ r₁ in
      let (granted, h₃, r₃) =
        >>=-eq-ok (authorize_project (tenants s) r.principal flag.project_id flag_write) _ r₂ in
      let kept =
        notify_all-db granted.0.id flag.key (config_rows rt del publish r flag.id s.db)
          (record s { db = write_archive rt del publish r granted.0.organization_id flag s }) in
      let same : flag.id ≡ flag_id =
        let t =
          find_where-test (λ f. f.id == flag_id) s.db.flags (or_raise-eq-ok _ flag_not_found h₁) in
        ground arith in
      get_config_by_flag_environment-archived flag_id environment_id _ (
        subst (λ (db : Db). IsArchived flag_id db.flags)
          (sym kept ∙ ap (λ (t : Service). t.db) (ok-injective r₃))
          (subst
            (λ n.
              IsArchived n (write_archive rt del publish r granted.0.organization_id flag s).flags)
            same (write_archive-IsArchived granted.0.organization_id flag s)))

  -- Once a flag is archived, the endpoints that read its configuration or its versions, add a rule to it
  -- or schedule a change of it answer that the flag was not found, to whoever asks and for every
  -- environment.
  pub archive_flag-hidden :
      (flag_id : ℕ) (s : Service) {s' : Service}
      → archive_flag rt del publish r flag_id s ≡ ok s'
      → (rank : String → ℕ) (isoformat : ℕ → String) (read_lazily : Option Project → Result Project)
        (del' publish' : Call) (later : Request) (environment_id : ℕ) (rule : RuleCreate)
        (change : ScheduledChangeCreate)
      → (get_flag rt rank later flag_id environment_id s' ≡ err flag_not_found)
        × (flag_versions rt rank later flag_id environment_id s' ≡ err flag_not_found)
        × (add_targeting_rule rt del' publish' later flag_id rule s' ≡ err flag_not_found)
        × (schedule_change rt del' publish' later isoformat read_lazily flag_id change s'
            ≡ err flag_not_found)
  unfolding get_flag flag_versions add_targeting_rule schedule_change
  archive_flag-hidden flag_id s h rank isoformat read_lazily del' publish' later environment_id rule
        change =
      let gone = archive_flag-gone flag_id s h in
      (
        rw (gone environment_id) refl,
        rw (gone environment_id) refl,
        rw (gone rule.environment_id) refl,
        rw (gone change.environment_id) refl,
      )
