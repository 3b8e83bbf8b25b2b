-- ===== src/Scheduler/Due.antt =====
-- backend/app/scheduler/__init__.py: `apply_due_changes`, one transaction over the changes that are due.
pub mod Progress
pub mod Stuck
mod Tests
use cohort_switch.Prelude.{
  ℕ, ◌+◌, String, Option, none, some, Bool, true, not, map, ◌&&◌, List, [], ◌∷◌, ◌++◌, ◌==◌, leb,
  take, length,
}
use cohort_switch.Prelude.Int.{ℤ}
use cohort_switch.Prelude.Sort.{sorted}
use cohort_switch.Errors.{Result, ok, err, raise_if, integrity_error, ◌>>=◌}
use cohort_switch.Runtime.{Runtime}
use cohort_switch.Evaluation.Value.{Value}
use cohort_switch.Database.{Project, FlagConfig}
use cohort_switch.Flags.Building.{are_distinct, update_from_configuration}
use cohort_switch.Flags.Storage.{compile_configuration}
use cohort_switch.Flags.Store.{update_flag}
use cohort_switch.Flags.Tables.{Actor, find_where, select_where, update_where, is_none}
use cohort_switch.Flags.Lookup.{Loaded, compile_row, get_config_by_flag_environment}
use cohort_switch.Cache.{Call}
use cohort_switch.Management.{ScheduledChange, Service, set_revision, notify}
use cohort_switch.Scheduler.{apply_payload}

-- What is published once the transaction is committed.
pub record Notice : Type 0 where
  -- the configuration that was written
  pub config_id : ℕ
  pub project_id : ℕ
  pub environment_id : ℕ
  pub flag_key : String
  pub event : String
  pub version : ℕ
  pub revision : ℕ

-- The end of the transaction: the rows of a configuration that was written twice in it are inserted
-- together, against the uniqueness of the keys of its variations.
unfoldable pub commit : List Notice → Result (Unit {0})
unfolding are_distinct
commit notices = raise_if (not (are_distinct (map (λ n. n.config_id) notices))) integrity_error

module _ (rt : Runtime) (to_text : Value → String) (to_int : Value → Result ℤ) (now : ℕ) where
  abbrev pub is_due : ScheduledChange → Bool
  is_due change = is_none change.applied_at && leb change.activate_at now

  -- the rows that the SELECT locks: the first 20 by the time of activation
  unfoldable pub due_changes : List ScheduledChange → List ScheduledChange
  unfolding sorted
  due_changes rows = take 20 (sorted (λ c. c.activate_at) (select_where is_due rows))

  abbrev pub mark : ScheduledChange → ScheduledChange
  mark c = record c { applied_at = some now }

  -- `change.applied_at = datetime.now(UTC)`
  unfoldable pub mark_applied : ScheduledChange → Service → Service
  mark_applied change s = record s {
    scheduled = update_where (λ c. c.id == change.id) mark s.scheduled;
  }

  abbrev pub scheduler_actor : ScheduledChange → Actor
  scheduler_actor change = record {
    user_id = change.created_by_id;
    api_key_id = none;
    request_id = none;
  }

  -- the change of a configuration whose project stands
  unfoldable pub apply_to :
      ScheduledChange → Loaded → Project → Service → Result (Service × List Notice)
  unfolding compile_configuration update_from_configuration apply_payload update_flag mark_applied
  apply_to change config project s = do
    compiled ← compile_row rt config
    update_payload ←
        update_from_configuration compiled config.config.environment_id
          config.config.current_version
    (payload, audit_action, event) ←
        apply_payload to_text to_int change.payload change.change_type update_payload
    (result, db) ←
        update_flag rt now project config.environment (scheduler_actor change) config.flag payload
          audit_action none s.db
    ok (
      mark_applied change (record s {
        db = set_revision config.environment.id (config.environment.revision + 1) db;
      }),
      record {
        config_id = config.config.id;
        project_id = project.id;
        environment_id = config.config.environment_id;
        flag_key = config.flag.key;
        event = event;
        version = result.current_version;
        revision = config.environment.revision + 1;
      }
          ∷ [],
    )

  -- a change whose project is gone counts as applied
  unfoldable pub apply_in :
      ScheduledChange → Loaded → Option Project → Service → Result (Service × List Notice)
  unfolding apply_to mark_applied
  apply_in change config none s = ok (mark_applied change s, [])
  apply_in change config (some project) s = apply_to change config project s

  -- and so does one whose configuration is gone
  unfoldable pub apply_row :
      ScheduledChange → Option FlagConfig → Service → Result (Service × List Notice)
  unfolding get_config_by_flag_environment apply_in mark_applied
  apply_row change none s = ok (mark_applied change s, [])
  apply_row change (some row) s = do
    config ← get_config_by_flag_environment row.flag_id row.environment_id s.db
    apply_in change config (find_where (λ p. p.id == config.flag.project_id) s.projects) s

  -- the body of the loop
  unfoldable pub apply_change : ScheduledChange → Service → Result (Service × List Notice)
  unfolding apply_row
  apply_change change s =
      apply_row change (find_where (λ c. c.id == change.config_id) s.db.configs) s

  -- The loop. The session of the source keeps the configurations that it has read, and holds back the
  -- rows of their new content until the commit; so the second change of one configuration finds the
  -- content from before the first one, and `commit` refuses the run. Here it finds the content of the
  -- first one, which makes a difference only to the exception that such a run raises.
  unfoldable pub apply_all : List ScheduledChange → Service → Result (Service × List Notice)
  unfolding apply_change
  apply_all [] s = ok (s, [])
  apply_all (change ∷ changes) s = do
    (s', notices) ← apply_change change s
    (s'', others) ← apply_all changes s'
    ok (s'', notices ++ others)

  -- the notifications; `del` and `publish` say how the calls of Redis end
  unfoldable pub publish_all : Call → Call → List Notice → Service → Service
  publish_all del publish [] s = s
  publish_all del publish (n ∷ notices) s = publish_all del publish notices (
      notify rt del publish n.project_id n.environment_id n.flag_key n.event n.version n.revision s)

  -- How many changes were applied, and the state after them. An exception of one change rolls back
  -- all of them.
  unfoldable pub apply_due_changes : Call → Call → Service → Result (ℕ × Service)
  unfolding due_changes apply_all commit publish_all
  apply_due_changes del publish s = do
    (s', notices) ← apply_all (due_changes s.scheduled) s
    committed ← commit notices
    ok (length notices, publish_all del publish notices s')
