-- ===== src/Management/Etags.antt =====
-- backend/app/api/management.py: the ETag of an environment's configuration.
use text.Mathlib.TextLemmas.{append_cancel_left, append_cancel_right}
use cohort_switch.Prelude.{
  ℕ, ◌≡◌, sym, ap, ◌∙◌, String, some, Bool, true, false, not, ◌||◌, inl, inr, arith, Bool-cases,
  ◌==◌, str_eq, eq_iff, elem,
}
use cohort_switch.Prelude.Decimal.{decimal, decimal-injective}
use cohort_switch.Errors.{ok, api, raise_if, Ensures, Ensures->>=, ok-injective, >>=-eq-ok}
use cohort_switch.Runtime.{Runtime}
use cohort_switch.Database.{Environment}
use cohort_switch.Permissions.{flag_read}
use cohort_switch.Access.{differs, authorize_environment}
use cohort_switch.Flags.Lookup.{get_all_environment_configs}
use cohort_switch.Flags.Store.Lists.{or_raise-eq-ok, some-injective}
use cohort_switch.Management.{Service, Request, tenants}
use cohort_switch.Management.Export.{
  Exported, not_modified, bundle, etag_of, is_known, exported_environment, export_by,
  export_configuration,
}
use cohort_switch.Management.Revisions.{
  environment_at, authorize_environment-found, Writes, Writes-IsOn,
}

etag_of-injective : (m n : ℕ) → etag_of m ≡ etag_of n → m ≡ n
unfolding etag_of
etag_of-injective m n h =
    decimal-injective m n
      (append_cancel_right (decimal m) (decimal n) "\"" (append_cancel_left "\"" _ _ h))

abbrev pub IsFull : Exported → Type 0
IsFull (not_modified tag) = ⊥
IsFull (bundle tag content) = Unit

exported_environment-found :
    (by_sdk : Bool) (r : Request) (project_id environment_id : ℕ) (s : Service) {e : Environment}
    → exported_environment by_sdk r project_id environment_id s ≡ ok e
    → environment_at environment_id s.db ≡ some e
unfolding exported_environment
exported_environment-found true r project_id environment_id s h =
    let missing = api 404 "environment_not_found" "Environment was not found." in
    let (u, h₁, r₁) =
      >>=-eq-ok
        (raise_if
          (differs r.principal.project_id project_id
            || differs r.principal.environment_id environment_id
            || not (elem "flags:read" r.principal.scopes))
          (api 403 "insufficient_scope" "SDK key is not scoped to this environment."))
        _ h in
    or_raise-eq-ok _ missing r₁
exported_environment-found false r project_id environment_id s h =
    let (a, h₁, r₁) =
      >>=-eq-ok (authorize_environment (tenants s) r.principal environment_id flag_read) _ h in
    authorize_environment-found (tenants s) r.principal environment_id flag_read h₁
    ∙ ap some (ok-injective r₁)

is_known-other :
    (old new : ℕ) → (old ≡ new → ⊥) → is_known (some (etag_of old)) (etag_of new) ≡ false
is_known-other old new other = elim (Bool-cases (str_eq (etag_of old) (etag_of new))) [
  | inl same ↦ absurd (other (etag_of-injective old new ((eq_iff _ _).0 same)))
  | inr differ ↦ differ
]

module _ (rt : Runtime) (rank : String → ℕ) where
  export_configuration-IsFull :
      (r : Request) (old project_id environment_id : ℕ) (s : Service) {e : Environment}
      → environment_at environment_id s.db ≡ some e
      → (old ≡ e.revision → ⊥)
      → Ensures IsFull
          (export_configuration rt rank r (some (etag_of old)) project_id environment_id s)
  unfolding export_configuration export_by
  export_configuration-IsFull r old project_id environment_id s {e} found other =
      Ensures->>= IsFull
        (exported_environment (str_eq r.principal.kind "SDK") r project_id environment_id s) _
        (λ environment h.
          let at = exported_environment-found _ r project_id environment_id s h in
          let same : e.revision ≡ environment.revision =
            ap (λ (x : Environment). x.revision) (some-injective (sym found ∙ at)) in
          Ensures->>= IsFull
            (raise_if (not (environment.project_id == project_id))
              (api 404 "environment_not_found" "Environment was not found."))
            _
            (λ u h'. rw (is_known-other old environment.revision (λ q. other (q ∙ sym same))) (
              Ensures->>= IsFull
                (get_all_environment_configs rt rank project_id environment_id s.db) _
                (λ configs h''. tt))))

module _ (rt : Runtime) where
  -- After a configuration of an environment is replaced or rolled back, nobody who shows the ETag that
  -- the environment had before is told that nothing was modified: an export that returns is full.
  pub export_configuration-after :
      (environment_id : ℕ) (s s' : Service) (e : Environment)
      → Writes rt environment_id s s'
      → environment_at environment_id s.db ≡ some e
      → (rank : String → ℕ) (r : Request) (project_id : ℕ)
      → Ensures IsFull
          (export_configuration rt rank r (some (etag_of e.revision)) project_id environment_id s')
  export_configuration-after environment_id s s' e w found rank r project_id =
      let (e', there, on) = Writes-IsOn rt environment_id s s' e w found in
      export_configuration-IsFull rt rank r e.revision project_id environment_id s' there
        (λ same. absurd (omega arith))
