-- ===== src/Scheduler/Due/Tests.antt =====
-- The theorems on due changes at concrete inputs.
use cohort_switch.Prelude.{ℕ, ◌≡◌, refl, false, some, [], ◌∷◌, arith, All, ◌==◌}
use cohort_switch.Prelude.Int.{pos}
use cohort_switch.Prelude.Sort.{sorted}
use cohort_switch.Errors.{ok, err}
use cohort_switch.Database.{FlagConfig}
use cohort_switch.Flags.Tables.{find_where}
use cohort_switch.Flags.Lookup.{flag_not_found}
use cohort_switch.Cache.{answered}
use cohort_switch.Management.{Service}
use cohort_switch.Management.Flags.{archive_flag}
use cohort_switch.Scheduler.Due.{is_due, due_changes, apply_due_changes}
use cohort_switch.Scheduler.Due.Progress.{apply_due_changes-done}
use cohort_switch.Scheduler.Due.Stuck.{archive_flag-apply_due_changes}
use cohort_switch.Samples.{stand_in, run_create}
use cohort_switch.Samples.Shop.{service, by_alice, enabling}

applied :
    (count : ℕ) × (s : Service) × (apply_due_changes stand_in
        (λ v. "v")
        (λ v. ok (pos 0))
        500
        answered
        answered
        service
      ≡ ok (count, s))
unfolding apply_due_changes run_create sorted
applied = (_, _, refl)

apply_due_changes-done_example :
    All (λ x. is_due stand_in (λ v. "v") (λ v. ok (pos 0)) 500 x ≡ false) applied.1.scheduled
apply_due_changes-done_example =
    apply_due_changes-done stand_in (λ v. "v") (λ v. ok (pos 0)) 500 answered answered service
      (omega arith) applied.2

archived : (s : Service) × (archive_flag stand_in answered answered by_alice 5 service ≡ ok s)
unfolding archive_flag run_create
archived = (_, refl)

row_there : (row : FlagConfig) × (find_where (λ c. c.id == 6) archived.0.db.configs ≡ some row)
unfolding archived archive_flag run_create
row_there = (_, refl)

still_due :
    due_changes stand_in (λ v. "v") (λ v. ok (pos 0)) 500 archived.0.scheduled ≡ enabling ∷ []
unfolding due_changes archived archive_flag
still_due = refl

of_the_flag : row_there.0.flag_id ≡ 5
unfolding row_there run_create
of_the_flag = refl

archive_flag-apply_due_changes_example :
    apply_due_changes stand_in (λ v. "v") (λ v. ok (pos 0)) 500 answered answered archived.0
    ≡ err flag_not_found
archive_flag-apply_due_changes_example =
    archive_flag-apply_due_changes stand_in (λ v. "v") (λ v. ok (pos 0)) answered answered answered
      answered by_alice service archived.0 5 archived.1 500 enabling [] still_due row_there.0
      row_there.1 of_the_flag
