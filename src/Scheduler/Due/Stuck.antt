-- ===== src/Scheduler/Due/Stuck.antt =====
-- backend/app/scheduler/__init__.py: a run over a change that cannot be applied.
use cohort_switch.Prelude.{ℕ, ◌≡◌, refl, sym, subst, String, some, List, ◌∷◌, ◌==◌}
use cohort_switch.Prelude.Int.{ℤ}
use cohort_switch.Errors.{Result, ok, err}
use cohort_switch.Runtime.{Runtime}
use cohort_switch.Evaluation.Value.{Value}
use cohort_switch.Database.{FlagConfig}
use cohort_switch.Flags.Tables.{find_where}
use cohort_switch.Flags.Lookup.{flag_not_found, get_config_by_flag_environment}
use cohort_switch.Cache.{Call}
use cohort_switch.Management.{ScheduledChange, Service, Request}
use cohort_switch.Management.Flags.{archive_flag}
use cohort_switch.Management.Archive.{archive_flag-gone}
use cohort_switch.Scheduler.Due.{due_changes, apply_row, apply_change, apply_all, apply_due_changes}

module _ (rt : Runtime) (to_text : Value → String) (to_int : Value → Result ℤ) where
  -- After a flag is archived, each run whose earliest due change is one of that flag raises, and so
  -- applies none of the changes that are due.
  pub archive_flag-apply_due_changes :
      (del publish del' publish' : Call) (r : Request) (s s' : Service) (flag_id : ℕ)
      → archive_flag rt del publish r flag_id s ≡ ok s'
      → (now : ℕ) (change : ScheduledChange) (others : List ScheduledChange)
      → due_changes rt to_text to_int now s'.scheduled ≡ change ∷ others
      → (row : FlagConfig) → find_where (λ c. c.id == change.config_id) s'.db.configs ≡ some row
      → row.flag_id ≡ flag_id
      → apply_due_changes rt to_text to_int now del' publish' s' ≡ err flag_not_found
  unfolding apply_due_changes apply_all apply_change apply_row
  archive_flag-apply_due_changes del publish del' publish' r s s' flag_id h now change others due
        row found its =
      let gone =
        subst (λ n. get_config_by_flag_environment n row.environment_id s'.db ≡ err flag_not_found)
          (sym its) (archive_flag-gone rt del publish r flag_id s h row.environment_id) in
      let outcome =
        λ (changes : List ScheduledChange). apply_all rt to_text to_int now changes s' in
      rw (due, found, gone) refl
