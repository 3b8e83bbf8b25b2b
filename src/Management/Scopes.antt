-- ===== src/Management/Scopes.antt =====
-- backend/app/services/keys.py: what a created key may do.
use cohort_switch.Prelude.{
  ℕ, ◌≡◌, refl, sym, ◌∙◌, subst, String, Bool, true, false, not, List, [], ◌∷◌, inl, inr,
  Bool-cases, any, ◌==◌, ◌||◌, str_eq, elem, is_nonempty,
}
use cohort_switch.Errors.{
  ok, api, integrity_error, raise_if, ok-injective, >>=-eq-ok, Ensures-at, Ensures->>=,
  Ensures-raise_if,
}
use cohort_switch.Permissions.{
  Permission, permission_value, org_manage, project_manage, environment_manage, flag_read,
  flag_write, evaluate, audit_read, key_manage,
}
use cohort_switch.Flags.Tables.{find_where, or_raise}
use cohort_switch.Access.{Membership, Tenants, authorize_organization}
use cohort_switch.Access.Isolation.{by_key, by_member, authorize_organization-MayAct}
use cohort_switch.Cache.{unique_keys, sorted_texts}
use cohort_switch.Cache.Texts.{elem-sorted_texts, elem_of-unique_keys}
use cohort_switch.Management.{Service, Request}
use cohort_switch.Management.Keys.{
  Scope, flags_read, flags_write, evaluates, audit_reads, scope_name, scope_names, ApiKeyCreate,
  ApiKeyCreated, sdk_scopes, management_scopes, key_of_kind, new_key, create_api_key, lacks_project,
  sdk_scope, scope_not_found,
}
use cohort_switch.Management.Credentials.{principal_of}

-- The permissions that the scope of a key can name.
abbrev pub is_limited : Permission → Bool
is_limited flag_read = true
is_limited flag_write = true
is_limited evaluate = true
is_limited audit_read = true
is_limited _ = false

named_by_scope :
    (p : Permission) (x : Scope)
    → str_eq (scope_name x) (permission_value p) ≡ true
    → is_limited p ≡ true
unfolding scope_name permission_value
named_by_scope org_manage flags_read h = absurd (cc)
named_by_scope org_manage flags_write h = absurd (cc)
named_by_scope org_manage evaluates h = absurd (cc)
named_by_scope org_manage audit_reads h = absurd (cc)
named_by_scope project_manage flags_read h = absurd (cc)
named_by_scope project_manage flags_write h = absurd (cc)
named_by_scope project_manage evaluates h = absurd (cc)
named_by_scope project_manage audit_reads h = absurd (cc)
named_by_scope environment_manage flags_read h = absurd (cc)
named_by_scope environment_manage flags_write h = absurd (cc)
named_by_scope environment_manage evaluates h = absurd (cc)
named_by_scope environment_manage audit_reads h = absurd (cc)
named_by_scope key_manage flags_read h = absurd (cc)
named_by_scope key_manage flags_write h = absurd (cc)
named_by_scope key_manage evaluates h = absurd (cc)
named_by_scope key_manage audit_reads h = absurd (cc)
named_by_scope flag_read x h = refl
named_by_scope flag_write x h = refl
named_by_scope evaluate x h = refl
named_by_scope audit_read x h = refl

named_by_scopes :
    (p : Permission) (xs : List Scope)
    → elem (permission_value p) (scope_names xs) ≡ true
    → is_limited p ≡ true
unfolding scope_names
named_by_scopes p [] h = absurd (cc)
named_by_scopes p (x ∷ xs) h = elim (Bool-cases (str_eq (scope_name x) (permission_value p))) [
  | inl same ↦ named_by_scope p x same
  | inr other ↦ named_by_scopes p xs (rw other at h)
]

-- A list of scopes names only such permissions.
abbrev AreLimited : List String → Type 0
AreLimited scopes = (p : Permission) → elem (permission_value p) scopes ≡ true → is_limited p ≡ true

management_scopes-AreLimited :
    (payload : ApiKeyCreate) {scopes : List String}
    → management_scopes payload ≡ ok scopes
    → AreLimited scopes
unfolding management_scopes
management_scopes-AreLimited payload h =
    let chosen = unique_keys [] (scope_names payload.scopes) in
    let (u, h₁, r₁) =
      >>=-eq-ok
        (raise_if (lacks_project payload.environment_id payload.project_id)
          (api 422 "invalid_api_key_scope" "Environment scope requires project scope."))
        _ h in
    let (v, h₂, r₂) =
      >>=-eq-ok
        (raise_if (not (is_nonempty (sorted_texts chosen)))
          (api 422 "missing_scopes" "At least one management scope is required."))
        _ r₁ in
    subst AreLimited (ok-injective r₂) (λ p i. named_by_scopes p payload.scopes (
      elem_of-unique_keys (permission_value p) [] (scope_names payload.scopes)
        (sym (elem-sorted_texts (permission_value p) chosen) ∙ i)))

sdk_scopes-AreLimited :
    (payload : ApiKeyCreate) (s : Service) {scopes : List String}
    → sdk_scopes payload s ≡ ok scopes
    → AreLimited scopes
unfolding sdk_scopes scope_names
sdk_scopes-AreLimited payload s h = Ensures-at AreLimited (sdk_scopes payload s) h (
    Ensures->>= AreLimited (sdk_scope payload.project_id payload.environment_id) _ (λ ids h₁.
      Ensures->>= AreLimited (or_raise (find_where (λ p. p.id == ids.0) s.projects) scope_not_found)
        _
        (λ project h₂.
          Ensures->>= AreLimited
            (or_raise (find_where (λ e. e.id == ids.1) s.db.environments) scope_not_found) _
            (λ environment h₃.
              Ensures-raise_if AreLimited
                (not (project.organization_id == payload.organization_id)
                  || not (environment.project_id == project.id))
                scope_not_found _ (λ h₄ p. named_by_scopes p (flags_read ∷ evaluates ∷ []))))))

module _ (hash_secret : String → String) (drawn : String) (r : Request) where
  key_of_kind-AreLimited :
      (payload : ApiKeyCreate) (kind : String) (s : Service) {both : List String × String}
      → key_of_kind hash_secret drawn r payload kind s ≡ ok both
      → AreLimited both.0
  unfolding key_of_kind
  key_of_kind-AreLimited payload kind s h = elim (Bool-cases (str_eq kind "SDK")) [
    | inl sdk ↦
        let (scopes, h₁, r₁) = >>=-eq-ok (sdk_scopes payload s) _ (rw sdk at h) in
        subst (λ p. AreLimited p.0) (ok-injective r₁) (sdk_scopes-AreLimited payload s h₁)
    | inr other ↦ elim (Bool-cases (str_eq kind "MANAGEMENT")) [
      | inl management ↦
          let (scopes, h₁, r₁) =
            >>=-eq-ok (management_scopes payload) _ (rw (other, management) at h) in
          subst (λ p. AreLimited p.0) (ok-injective r₁) (management_scopes-AreLimited payload h₁)
      | inr unknown ↦ absurd (let h' = rw (other, unknown) at h in cc)
    ]
  ]

  -- A key that is created, of whatever kind and by whomever, is authorized in no organization for a
  -- permission other than reading and writing flags, evaluating and reading the audit log.
  pub create_api_key_limited :
      (payload : ApiKeyCreate) (kind : String) (s : Service) (created : ApiKeyCreated)
      (s' : Service)
      → create_api_key hash_secret drawn r payload kind s ≡ ok (created, s')
      → (t : Tenants) (organization_id : ℕ) (permission : Permission) {m : Membership}
      → authorize_organization t
          (principal_of hash_secret drawn r payload kind created)
          organization_id
          permission
        ≡ ok m
      → is_limited permission ≡ true
  unfolding create_api_key
  create_api_key_limited payload kind s created s' h t organization_id permission {m} allowed =
      let (both, h₁, r₁) = >>=-eq-ok (key_of_kind hash_secret drawn r payload kind s) _ h in
      let key = new_key hash_secret drawn r payload kind both.0 both.1 s.db.next_id in
      let (u, h₂, r₂) =
        >>=-eq-ok (raise_if (any (λ k. str_eq k.key_hash key.key_hash) s.api_keys) integrity_error)
          _ r₁ in
      let limited =
        subst (λ (p : ApiKeyCreated × Service). AreLimited p.0.scopes) (ok-injective r₂)
          (key_of_kind-AreLimited payload kind s h₁) in
      elim (authorize_organization-MayAct t (principal_of hash_secret drawn r payload kind created)
        organization_id permission m allowed) [
          | by_key own organization scope ↦ limited permission scope
          | by_member member user_id anonymous row found role named permitted ↦ absurd (cc)
        ]
