-- ===== src/Serving/Agreement.antt =====
-- backend/app/api/evaluation.py: the endpoints against the database, and the batch against single
-- evaluations.
use cohort_switch.Prelude.{
  ℕ, ◌≡◌, refl, sym, ap, ◌∙◌, subst, String, some, Bool, true, List, [], ◌∷◌, inl, inr, Bool-cases,
  str_eq, lookup, lookup_of_elem, elem, keys, ◌⊎◌,
}
use cohort_switch.Errors.{Result, ok, err, key_error, ok-injective, >>=-eq-ok, ◌>>=◌}
use cohort_switch.Runtime.{Runtime}
use cohort_switch.Evaluation.Models.{FlagConfiguration, EvaluationContext, EvaluationResult}
use cohort_switch.Evaluation.Engine.{evaluate_flag}
use cohort_switch.Access.{Principal}
use cohort_switch.Flags.Building.{set_entry}
use cohort_switch.Flags.Tables.{Db, or_raise}
use cohort_switch.Flags.Store.Lists.{or_raise-eq-ok, some-injective}
use cohort_switch.Flags.Lookup.{get_config_by_key}
use cohort_switch.Flags.Lookup.Dicts.{AreGood, AreGood-lookup, AreGood-set_entry, elem-set_entry}
use cohort_switch.Flags.Lookup.Keys.{HasUniqueKeys, AllCompile}
use cohort_switch.Cache.{Redis, load_configurations}
use cohort_switch.Cache.Keys.{IsNaming}
use cohort_switch.Cache.Coherence.{IsCoherent, load_configuration-IsCoherent}
use cohort_switch.Cache.Batch.{complete, incomplete, load_configurations-Answers}
use cohort_switch.Serving.{
  EvaluationRequest, BatchEvaluationRequest, scope, context_of, evaluate_loaded, evaluate_in,
  evaluate, evaluate_each, evaluate_all, evaluate_batch_in, evaluate_batch,
}

-- what the database alone would answer
abbrev pub evaluate_rows :
    Runtime → Db → ℕ → EvaluationRequest → Result (ℕ × ℕ) → Result EvaluationResult
evaluate_rows rt db at payload ids = ids >>= λ (p, e).
    get_config_by_key rt p e payload.flag_key db >>= λ c.
    evaluate_flag rt c (context_of payload.subject_key payload.attributes) at

-- one key of a batch
abbrev pub request_of : BatchEvaluationRequest → String → EvaluationRequest
request_of payload k = record {
  flag_key = k;
  subject_key = payload.subject_key;
  attributes = payload.attributes;
}

module _ (rt : Runtime) (naming : IsNaming rt) (now ttl : ℕ) (db : Db) (redis : Redis)
    (coherent : IsCoherent rt now db redis) where
  evaluate_in_rows :
      (at : ℕ) (answers written : Bool) (payload : EvaluationRequest) (ids : Result (ℕ × ℕ))
      → (evaluate_in rt now ttl at answers written payload db redis ids).0
        ≡ evaluate_rows rt db at payload ids
  unfolding evaluate_in evaluate_loaded
  evaluate_in_rows at answers written payload (err x) = refl
  evaluate_in_rows at answers written payload (ok (p, e)) =
      ap (λ o. o >>= λ c. evaluate_flag rt c (context_of payload.subject_key payload.attributes) at)
        (load_configuration-IsCoherent rt now db naming ttl p e answers written payload.flag_key
          redis coherent).0

  -- While Redis holds only what the database gives, an evaluation has the outcome that the rows alone
  -- would give it, for every key and flag, whether Redis answers or not and whether the write behind
  -- a miss reaches it or not, where the texts of ids are distinct and hold no `:`.
  pub evaluate_from_rows :
      (at : ℕ) (answers written : Bool) (principal : Principal) (payload : EvaluationRequest)
      → (evaluate rt now ttl at answers written principal payload db redis).0
        ≡ evaluate_rows rt db at payload (scope principal)
  unfolding evaluate
  evaluate_from_rows at answers written principal payload =
      evaluate_in_rows at answers written payload (scope principal)

module _ (rt : Runtime) (now ttl : ℕ) (at : String → ℕ) (context : EvaluationContext)
    (configs : List (String × FlagConfiguration)) where
  -- The result is that of the configuration that stands under the key.
  abbrev IsResult : String → EvaluationResult → Type 0
  IsResult k r =
      (c : FlagConfiguration) × (lookup k configs ≡ some c)
      × (evaluate_flag rt c context (at k) ≡ ok r)

  evaluate_each-AreGood :
      (ks : List String) (acc : List (String × EvaluationResult))
      → AreGood IsResult acc
      → {results : List (String × EvaluationResult)}
      → evaluate_each rt now ttl at context configs ks acc ≡ ok results
      → AreGood IsResult results
  unfolding evaluate_each
  evaluate_each-AreGood [] acc good h = subst (AreGood IsResult) (ok-injective h) good
  evaluate_each-AreGood (k ∷ ks) acc good h =
      let (c, h₁, r₁) = >>=-eq-ok (or_raise (lookup k configs) key_error) _ h in
      let (r, h₂, r₂) = >>=-eq-ok (evaluate_flag rt c context (at k)) _ r₁ in
      evaluate_each-AreGood ks (set_entry k r acc)
        (AreGood-set_entry IsResult k r acc good
          (c, or_raise-eq-ok (lookup k configs) key_error h₁, h₂))
        r₂

  evaluate_each-elem :
      (t : String) (ks : List String) (acc : List (String × EvaluationResult))
      → (elem t ks ≡ true) ⊎ (elem t (keys acc) ≡ true)
      → {results : List (String × EvaluationResult)}
      → evaluate_each rt now ttl at context configs ks acc ≡ ok results
      → elem t (keys results) ≡ true
  unfolding evaluate_each
  evaluate_each-elem t [] acc (inl i) h = absurd (cc)
  evaluate_each-elem t [] acc (inr i) h = subst (λ d. elem t (keys d) ≡ true) (ok-injective h) i
  evaluate_each-elem t (k ∷ ks) acc i h =
      let (c, h₁, r₁) = >>=-eq-ok (or_raise (lookup k configs) key_error) _ h in
      let (r, h₂, r₂) = >>=-eq-ok (evaluate_flag rt c context (at k)) _ r₁ in
      evaluate_each-elem t ks (set_entry k r acc)
        (elim i [
          | inr there ↦ inr (elem-set_entry k t r acc (inr there))
          | inl asked ↦ elim (Bool-cases (str_eq k t)) [
            | inl same ↦ inr (elem-set_entry k t r acc (inl same))
            | inr other ↦ inl (rw other at asked)
          ]
        ])
        r₂

module _ (rt : Runtime) (naming : IsNaming rt) (now ttl : ℕ) (db : Db) (redis : Redis)
    (coherent : IsCoherent rt now db redis) (principal : Principal) (p e : ℕ)
    (scoped : scope principal ≡ ok (p, e)) where
  -- What a batch returns for a key is what a single evaluation of the key returns at that time, while
  -- Redis holds only what the database gives, where no two flags of the key's project and environment
  -- have one key, the live rows compile, and the texts of ids are distinct and hold no `:`.
  pub evaluate_batch_agrees :
      HasUniqueKeys p e db
      → AllCompile rt p e db
      → (at : String → ℕ) (answers : Bool) (written : String → Bool)
      → (payload : BatchEvaluationRequest) {results : List (String × EvaluationResult)}
      → (evaluate_batch rt now ttl at answers written principal payload db redis).0 ≡ ok results
      → (k : String) → elem k payload.flags ≡ true
      → (r : EvaluationResult) × (lookup k results ≡ some r)
        × ((answers' written' : Bool)
            → (evaluate rt now ttl
                (at k)
                answers'
                written'
                principal
                (request_of payload k)
                db
                redis).0
              ≡ ok r)
  unfolding evaluate_batch evaluate_batch_in evaluate_all
  evaluate_batch_agrees unique compile at answers written payload {results} h k asked =
      let context = context_of payload.subject_key payload.attributes in
      let h' =
        subst
          (λ ids.
            (evaluate_batch_in rt now ttl at answers written payload db redis ids).0 ≡ ok results)
          scoped h in
      let (configs, h₁, r₁) =
        >>=-eq-ok (load_configurations rt now ttl p e answers written payload.flags db redis).0 _
          h' in
      elim (load_configurations-Answers rt now ttl p e db unique compile redis coherent answers
        written payload.flags) [
          | incomplete missing failed filled exactly ↦ absurd (cc)
          | complete found returned each ↦
              let there =
                evaluate_each-elem rt now ttl at context configs k payload.flags [] (inl asked)
                  r₁ in
              let (r, at_key) = lookup_of_elem k results there in
              let (c, named, decided) =
                AreGood-lookup (IsResult rt now ttl at context configs) k results
                  (evaluate_each-AreGood rt now ttl at context configs payload.flags [] tt r₁)
                  at_key in
              let same = ok-injective (sym returned ∙ h₁) in
              let (c', named', stored) = each k asked in
              let agree = some-injective (sym named' ∙ ap (lookup k) same ∙ named) in
              (
                r,
                at_key,
                λ answers' written'.
                    evaluate_from_rows rt naming now ttl db redis coherent (at k) answers' written'
                      principal (request_of payload k)
                    ∙ ap (evaluate_rows rt db (at k) (request_of payload k)) scoped
                    ∙ ap (λ o. o >>= λ d. evaluate_flag rt d context (at k)) (stored ∙ ap ok agree)
                    ∙ decided,
              )
        ]
