-- ===== src/Scheduler/Due/Progress.antt =====
-- backend/app/scheduler/__init__.py: what a run that returns has applied.
use cohort_switch.Prelude.{
  ℕ, zero, suc, ◌≤◌, ◌≡◌, refl, sym, ap, ◌∙◌, subst, String, Option, none, some, true, false, List,
  [], ◌∷◌, ◌==◌, inl, inr, ◌⊎◌, arith, All, All-of_at, IsIn, Bool-cases, leb, take, length,
}
use cohort_switch.Prelude.Int.{ℤ}
use cohort_switch.Prelude.Sort.{sorted, insert, mem-sorted}
use cohort_switch.Errors.{Result, ok, ok-injective, >>=-eq-ok}
use cohort_switch.Runtime.{Runtime}
use cohort_switch.Evaluation.Value.{Value}
use cohort_switch.Database.{Project, FlagConfig}
use cohort_switch.Flags.Building.{update_from_configuration}
use cohort_switch.Flags.Store.{update_flag}
use cohort_switch.Flags.Store.Lists.{All-update_where, mem-select_where}
use cohort_switch.Flags.Tables.{find_where, select_where, update_where}
use cohort_switch.Flags.Lookup.{Loaded, compile_row, get_config_by_flag_environment}
use cohort_switch.Cache.{Call}
use cohort_switch.Management.{ScheduledChange, Service}
use cohort_switch.Scheduler.{apply_payload}
use cohort_switch.Scheduler.Due.{
  Notice, is_due, due_changes, mark, mark_applied, scheduler_actor, apply_to, apply_in, apply_row,
  apply_change, apply_all, commit, publish_all, apply_due_changes,
}

module _ (rt : Runtime) (to_text : Value → String) (to_int : Value → Result ℤ) (now : ℕ) where
  abbrev marked : ScheduledChange → List ScheduledChange → List ScheduledChange
  marked change = update_where (λ c. c.id == change.id) (mark rt to_text to_int now)

  apply_to-scheduled :
      (change : ScheduledChange) (config : Loaded) (project : Project) (s : Service) {s' : Service}
      {notices : List Notice}
      → apply_to rt to_text to_int now change config project s ≡ ok (s', notices)
      → s'.scheduled ≡ marked change s.scheduled
  unfolding apply_to mark_applied
  apply_to-scheduled change config project s h =
      let (compiled, h₁, r₁) = >>=-eq-ok (compile_row rt config) _ h in
      let (update, h₂, r₂) =
        >>=-eq-ok
          (update_from_configuration compiled config.config.environment_id
            config.config.current_version)
          _ r₁ in
      let (decided, h₃, r₃) =
        >>=-eq-ok (apply_payload to_text to_int change.payload change.change_type update) _ r₂ in
      let (written, h₄, r₄) =
        >>=-eq-ok
          (update_flag rt now project config.environment
            (scheduler_actor rt to_text to_int now change) config.flag decided.0 decided.1 none
            s.db)
          _ r₃ in
      ap (λ p. p.0.scheduled) (sym (ok-injective r₄))

  apply_in-scheduled :
      (change : ScheduledChange) (config : Loaded) (found : Option Project) (s : Service)
      {s' : Service} {notices : List Notice}
      → apply_in rt to_text to_int now change config found s ≡ ok (s', notices)
      → s'.scheduled ≡ marked change s.scheduled
  unfolding apply_in mark_applied
  apply_in-scheduled change config none s h = ap (λ p. p.0.scheduled) (sym (ok-injective h))
  apply_in-scheduled change config (some project) s h = apply_to-scheduled change config project s h

  apply_row-scheduled :
      (change : ScheduledChange) (found : Option FlagConfig) (s : Service) {s' : Service}
      {notices : List Notice}
      → apply_row rt to_text to_int now change found s ≡ ok (s', notices)
      → s'.scheduled ≡ marked change s.scheduled
  unfolding apply_row mark_applied
  apply_row-scheduled change none s h = ap (λ p. p.0.scheduled) (sym (ok-injective h))
  apply_row-scheduled change (some row) s h =
      let (config, h₁, r₁) =
        >>=-eq-ok (get_config_by_flag_environment row.flag_id row.environment_id s.db) _ h in
      apply_in-scheduled change config (find_where (λ p. p.id == config.flag.project_id) s.projects)
        s r₁

  -- Each row is not due, or it has the id of a change that is still to be applied.
  abbrev Pending : List ScheduledChange → List ScheduledChange → Type 0
  Pending changes = All (λ x.
      (is_due rt to_text to_int now x ≡ false)
      ⊎ ((c : ScheduledChange) × IsIn c changes × ((x.id == c.id) ≡ true)))

  Pending-marked :
      (change : ScheduledChange) (changes rows : List ScheduledChange)
      → Pending (change ∷ changes) rows
      → Pending changes (marked change rows)
  Pending-marked change changes rows h =
      All-update_where _ _ (λ c. c.id == change.id) (mark rt to_text to_int now)
        (λ x pending same. inl refl)
        (λ x pending other. elim pending [
          | inl done ↦ inl done
          | inr (c, i, same) ↦ elim i [
            | inl first ↦ absurd (
                let same' = subst (λ (d : ScheduledChange). (x.id == d.id) ≡ true) first same in cc)
            | inr later ↦ inr (c, later, same)
          ]
        ])
        rows h

  none_left_due :
      (rows : List ScheduledChange)
      → Pending [] rows
      → All (λ x. is_due rt to_text to_int now x ≡ false) rows
  none_left_due [] h = tt
  none_left_due (x ∷ rows) h =
      (elim h.0 [ inl done ↦ done | inr (c, i, same) ↦ elim i [ ] ], none_left_due rows h.1)

  apply_all-Pending :
      (changes : List ScheduledChange) (s : Service) {s' : Service} {notices : List Notice}
      → apply_all rt to_text to_int now changes s ≡ ok (s', notices)
      → Pending changes s.scheduled
      → Pending [] s'.scheduled
  unfolding apply_all apply_change
  apply_all-Pending [] s h pending =
      subst (Pending []) (ap (λ p. p.0.scheduled) (ok-injective h)) pending
  apply_all-Pending (change ∷ changes) s h pending =
      let (first, h₁, r₁) = >>=-eq-ok (apply_change rt to_text to_int now change s) _ h in
      let (rest, h₂, r₂) = >>=-eq-ok (apply_all rt to_text to_int now changes first.0) _ r₁ in
      let step =
        apply_row-scheduled change (find_where (λ c. c.id == change.config_id) s.db.configs) s h₁ in
      subst (Pending []) (ap (λ p. p.0.scheduled) (ok-injective r₂)) (
        apply_all-Pending changes first.0 h₂
          (subst (Pending changes) (sym step) (Pending-marked change changes s.scheduled pending)))

  publish_all-scheduled :
      (del publish : Call) (notices : List Notice) (s : Service)
      → (publish_all rt to_text to_int now del publish notices s).scheduled ≡ s.scheduled
  unfolding publish_all
  publish_all-scheduled del publish [] s = refl
  publish_all-scheduled del publish (n ∷ notices) s = publish_all-scheduled del publish notices _

length-insert :
    (x : ScheduledChange) (xs : List ScheduledChange)
    → length (insert (λ c. c.activate_at) x xs) ≡ suc (length xs)
unfolding insert
length-insert x [] = refl
length-insert x (y ∷ ys) = elim (Bool-cases (leb x.activate_at y.activate_at)) [
  | inl low ↦ rw low refl
  | inr high ↦ rw high (ap suc (length-insert x ys))
]

length-sorted : (xs : List ScheduledChange) → length (sorted (λ c. c.activate_at) xs) ≡ length xs
unfolding sorted
length-sorted [] = refl
length-sorted (x ∷ xs) =
    length-insert x (sorted (λ c. c.activate_at) xs) ∙ ap suc (length-sorted xs)

take_all : (n : ℕ) (xs : List ScheduledChange) → length xs ≤ n → take n xs ≡ xs
take_all zero [] h = refl
take_all zero (x ∷ xs) h = absurd (omega arith)
take_all (suc n) [] h = refl
take_all (suc n) (x ∷ xs) h = ap (λ r. x ∷ r) (take_all n xs (omega arith))

module _ (rt : Runtime) (to_text : Value → String) (to_int : Value → Result ℤ) (now : ℕ) where
  due_changes-Pending :
      (rows : List ScheduledChange)
      → length (select_where (is_due rt to_text to_int now) rows) ≤ 20
      → Pending rt to_text to_int now (due_changes rt to_text to_int now rows) rows
  unfolding due_changes
  due_changes-Pending rows few =
      let chosen = select_where (is_due rt to_text to_int now) rows in
      let whole =
        take_all 20 (sorted (λ c. c.activate_at) chosen) (omega (arith, length-sorted chosen)) in
      All-of_at _ rows (λ x i. elim (Bool-cases (is_due rt to_text to_int now x)) [
        | inr later ↦ inl later
        | inl due ↦ inr (
          x,
          subst (IsIn x) (sym whole) (
              (mem-sorted (λ c. c.activate_at) x chosen).1
                (mem-select_where (is_due rt to_text to_int now) rows x i due)),
          ground arith,
        )
      ])

  -- When at most twenty changes are due and a run returns, no change is due any more at its time.
  pub apply_due_changes-done :
      (del publish : Call) (s : Service) {count : ℕ} {s' : Service}
      → length (select_where (is_due rt to_text to_int now) s.scheduled) ≤ 20
      → apply_due_changes rt to_text to_int now del publish s ≡ ok (count, s')
      → All (λ x. is_due rt to_text to_int now x ≡ false) s'.scheduled
  unfolding apply_due_changes
  apply_due_changes-done del publish s few h =
      let (applied, h₁, r₁) =
        >>=-eq-ok
          (apply_all rt to_text to_int now (due_changes rt to_text to_int now s.scheduled) s) _ h in
      let (committed, h₂, r₂) = >>=-eq-ok (commit applied.1) _ r₁ in
      none_left_due rt to_text to_int now _ (
        subst (Pending rt to_text to_int now [])
          (sym (publish_all-scheduled rt to_text to_int now del publish applied.1 applied.0)
            ∙ ap (λ p. p.1.scheduled) (ok-injective r₂))
          (apply_all-Pending rt to_text to_int now (due_changes rt to_text to_int now s.scheduled) s
            h₁ (due_changes-Pending s.scheduled few)))
