-- ===== src/Management/Credentials.antt =====
-- backend/app/services/keys.py and backend/app/api/dependencies.py: what a created key authenticates as.
use Prim.Native.Char.{Char, char}
use Prim.Native.String
use text.Mathlib.TextLemmas.{cons-append, cons-ne-nil}
use cohort_switch.Prelude.{
  ℕ, ◌≡◌, refl, sym, ap, ◌∙◌, subst, String, Option, none, some, Bool, true, false, ◌&&◌, List, [],
  ◌∷◌, ◌++◌, inl, inr, Bool-cases, ◌==◌, any, str_eq, eq_iff, eq_refl,
}
use cohort_switch.Errors.{
  Result, ok, api, integrity_error, raise_if, ok-injective, >>=-eq-ok, raise_if-eq-ok, ◌>>=◌,
}
use cohort_switch.Flags.Tables.{find_where, update_where, or_raise, is_none}
use cohort_switch.Access.{
  ApiKey, Principal, get_principal, principal_of_key, key_principal, raw_key,
}
use cohort_switch.Management.{Service, Request, tenants}
use cohort_switch.Management.Keys.{
  ApiKeyCreate, ApiKeyCreated, created_of, add_key, sdk_scopes, management_scopes, key_of_kind,
  new_key, create_api_key,
}

-- A row behind rows that fail a test is the first that passes it.
find_where-behind :
    {A : Type 0} (p q : A → Bool) (xs : List A) (x : A)
    → ((y : A) → q y ≡ false → p y ≡ false)
    → any q xs ≡ false
    → p x ≡ true
    → find_where p (xs ++ (x ∷ [])) ≡ some x
find_where-behind p q [] x weaker h hit = rw hit refl
find_where-behind p q (y ∷ xs) x weaker h hit = elim (Bool-cases (q y)) [
  | inl bad ↦ absurd (let h' = rw bad at h in cc)
  | inr good ↦ rw (weaker y good) (find_where-behind p q xs x weaker (rw good at h) hit)
]

prefixed :
    (c : Char) (s t : String) → str_eq (Prim.Native.String.◌++◌ (String.◌∷◌ c s) t) "" ≡ false
prefixed c s t = elim (Bool-cases (str_eq (Prim.Native.String.◌++◌ (String.◌∷◌ c s) t) "")) [
  | inl same ↦
      absurd (
        cons-ne-nil c (Prim.Native.String.◌++◌ s t) (sym (cons-append c s t) ∙ (eq_iff _ _).0 same))
  | inr other ↦ other
]

abbrev used : ℕ → ApiKey → List ApiKey → List ApiKey
used now key = update_where (λ k. k.id == key.id) (λ k. record k { last_used_at = some now })

module _ (hash_secret : String → String) (drawn : String) (r : Request) where
  key_of_kind-nonempty :
      (payload : ApiKeyCreate) (kind : String) (s : Service) {scopes : List String} {raw : String}
      → key_of_kind hash_secret drawn r payload kind s ≡ ok (scopes, raw)
      → str_eq raw "" ≡ false
  unfolding key_of_kind
  key_of_kind-nonempty payload kind s h = elim (Bool-cases (str_eq kind "SDK")) [
    | inl sdk ↦
        let (scopes, h₁, r₁) = >>=-eq-ok (sdk_scopes payload s) _ (rw sdk at h) in
        subst (λ t. str_eq t "" ≡ false) (ap (λ p. p.1) (ok-injective r₁))
          (prefixed (char 99 tt) "s_sdk_live_" drawn)
    | inr other ↦ elim (Bool-cases (str_eq kind "MANAGEMENT")) [
      | inl management ↦
          let (scopes, h₁, r₁) =
            >>=-eq-ok (management_scopes payload) _ (rw (other, management) at h) in
          subst (λ t. str_eq t "" ≡ false) (ap (λ p. p.1) (ok-injective r₁))
            (prefixed (char 99 tt) "s_api_live_" drawn)
      | inr unknown ↦ absurd (let h' = rw (other, unknown) at h in cc)
    ]
  ]

  -- what the key stands for
  abbrev pub principal_of : ApiKeyCreate → String → ApiKeyCreated → Principal
  principal_of payload kind created = record {
    user_id = none;
    api_key_id = some created.id;
    kind = kind;
    organization_id = some payload.organization_id;
    project_id = payload.project_id;
    environment_id = payload.environment_id;
    scopes = created.scopes;
  }

  Authenticates :
      ApiKeyCreate
      → String
      → (String → Result ℕ)
      → ℕ
      → Option String
      → ApiKeyCreated × Service
      → Type 0
  Authenticates payload kind decode now credentials (created, s) =
      (keys : List ApiKey) × (get_principal hash_secret decode now (tenants s) (some created.key)
          credentials
        ≡ ok (principal_of payload kind created, keys))

  authenticates :
      (payload : ApiKeyCreate) (kind : String) (s : Service) (scopes : List String) (raw : String)
      (decode : String → Result ℕ) (now : ℕ) (credentials : Option String)
      → str_eq raw "" ≡ false
      → any (λ k. str_eq k.key_hash (hash_secret raw)) s.api_keys ≡ false
      → let key = new_key hash_secret drawn r payload kind scopes raw s.db.next_id in
        Authenticates payload kind decode now credentials
          (created_of hash_secret drawn r key raw, add_key hash_secret drawn r payload key s)
  unfolding Authenticates get_principal raw_key principal_of_key
  authenticates payload kind s scopes raw decode now credentials filled fresh =
      let key = new_key hash_secret drawn r payload kind scopes raw s.db.next_id in
      let after = add_key hash_secret drawn r payload key s in
      let invalid = api 401 "invalid_api_key" "API key is invalid or revoked." in
      let found =
        find_where-behind
          (λ (k : ApiKey). str_eq k.key_hash (hash_secret raw) && is_none k.revoked_at)
          (λ k. str_eq k.key_hash (hash_secret raw)) s.api_keys key (λ k miss. rw miss refl) fresh
          (rw (eq_refl (hash_secret raw)) refl) in
      (
        used now key after.api_keys,
        rw filled (
            ap
              (λ (o : Option ApiKey). or_raise o invalid >>= λ k.
                ok (
                  key_principal hash_secret decode now (tenants after) k,
                  used now k after.api_keys,
                ))
              found),
      )

  -- The text that the creation of a key returns authenticates, in the header, as a principal of the
  -- kind, the organization, the project and the environment that were asked for, with the scopes that
  -- were returned, whatever else the request carries.
  pub create_api_key-get_principal :
      (payload : ApiKeyCreate) (kind : String) (s : Service) (created : ApiKeyCreated)
      (s' : Service)
      → create_api_key hash_secret drawn r payload kind s ≡ ok (created, s')
      → (decode : String → Result ℕ) (now : ℕ) (credentials : Option String)
      → (keys : List ApiKey) × (get_principal hash_secret decode now
            (tenants s')
            (some created.key)
            credentials
          ≡ ok (principal_of payload kind created, keys))
  unfolding create_api_key Authenticates
  create_api_key-get_principal payload kind s created s' h decode now credentials =
      let (both, h₁, r₁) = >>=-eq-ok (key_of_kind hash_secret drawn r payload kind s) _ h in
      let key = new_key hash_secret drawn r payload kind both.0 both.1 s.db.next_id in
      let (u, h₂, r₂) =
        >>=-eq-ok (raise_if (any (λ k. str_eq k.key_hash key.key_hash) s.api_keys) integrity_error)
          _ r₁ in
      let filled = key_of_kind-nonempty payload kind s h₁ in
      let fresh = raise_if-eq-ok _ integrity_error h₂ in
      subst (Authenticates payload kind decode now credentials) (ok-injective r₂)
        (authenticates payload kind s both.0 both.1 decode now credentials filled fresh)
