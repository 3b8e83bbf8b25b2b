-- ===== src/Cache/Batch.antt =====
-- backend/app/services/cache.py: what `load_configurations` answers, key by key.
use cohort_switch.Prelude.{
  ℕ, ◌≡◌, refl, sym, ◌∙◌, subst, ◌↔◌, String, some, Bool, true, false, not, List, [], ◌∷◌, inl, inr,
  Bool-cases, lookup, lookup_of_elem, str_eq, elem, keys, is_nonempty, ◌⊎◌,
}
use cohort_switch.Errors.{Result, ok, err, ok-injective}
use cohort_switch.Runtime.{Runtime}
use cohort_switch.Evaluation.Models.{FlagConfiguration}
use cohort_switch.Flags.Building.{set_entry}
use cohort_switch.Flags.Tables.{Db, select_where}
use cohort_switch.Flags.Lookup.{get_config_by_key, flag_not_found}
use cohort_switch.Flags.Lookup.Dicts.{AreGood, AreGood-lookup, AreGood-set_entry, elem-set_entry}
use cohort_switch.Flags.Lookup.Keys.{
  HasUniqueKeys, AllCompile, get_configs_by_keys-AreGood, get_configs_by_keys-missing,
  get_configs_by_keys-ok,
}
use cohort_switch.Cache.{
  Redis, read_all, unique_keys, sorted_texts, flags_not_found, update_entries, require_all,
  load_misses, finish_batch, batch_by, load_configurations,
}
use cohort_switch.Cache.Coherence.{IsCoherent}
use cohort_switch.Cache.Hits.{Configs, IsFound, take_hits-Partition, read_all-AreCurrent}
use cohort_switch.Cache.Texts.{
  elem-unique_keys, elem_of-unique_keys, elem-sorted_texts, elem-select_where, elem_of-select_where,
  elem_of_empty,
}

of_not-true : (b : Bool) → not b ≡ true → b ≡ false
of_not-true true h = absurd (cc)
of_not-true false h = refl

is_asked : (ks : List String) (k : String) → elem k ks ≡ true → elem k (unique_keys [] ks) ≡ true
is_asked ks k requested = elim (elem-unique_keys k [] ks requested) [
  | inl i ↦ absurd (cc)
  | inr i ↦ i
]

module _ (rt : Runtime) (now ttl p e : ℕ) (db : Db) where
  -- The outcome for the keys: each of them, as the database gives it; or an error that lists the keys
  -- that it does not have.
  pub data Answers (ks : List String) (outcome : Result Configs) : Type 0 where
    complete :
        (configs : Configs)
        → outcome ≡ ok configs
        → ((k : String)
            → elem k ks ≡ true
            → (c : FlagConfiguration) × (lookup k configs ≡ some c)
              × (get_config_by_key rt p e k db ≡ ok c))
        → Answers ks outcome
    incomplete :
        (missing : List String)
        → outcome ≡ err (flags_not_found missing)
        → is_nonempty missing ≡ true
        → ((k : String)
            → (elem k missing ≡ true)
              ↔ ((elem k ks ≡ true) × (get_config_by_key rt p e k db ≡ err flag_not_found)))
        → Answers ks outcome

  update_entries-AreGood :
      (loaded d : Configs)
      → AreGood (IsFound rt now ttl p e db) loaded
      → AreGood (IsFound rt now ttl p e db) d
      → AreGood (IsFound rt now ttl p e db) (update_entries rt now ttl p e loaded d)
  unfolding update_entries
  update_entries-AreGood [] d h good = good
  update_entries-AreGood ((k, c) ∷ loaded) d h good =
      update_entries-AreGood loaded (set_entry k c d) h.1
        (AreGood-set_entry (IsFound rt now ttl p e db) k c d good h.0)

  update_entries-elem :
      (k : String) (loaded d : Configs)
      → (elem k (keys loaded) ≡ true) ⊎ (elem k (keys d) ≡ true)
      → elem k (keys (update_entries rt now ttl p e loaded d)) ≡ true
  unfolding update_entries
  update_entries-elem k [] d (inl h) = absurd (cc)
  update_entries-elem k [] d (inr h) = h
  update_entries-elem k ((j, c) ∷ loaded) d h =
      update_entries-elem k loaded (set_entry j c d) (elim h [
        | inr i ↦ inr (elem-set_entry j k c d (inr i))
        | inl i ↦ elim (Bool-cases (str_eq j k)) [
          | inl same ↦ inr (elem-set_entry j k c d (inl same))
          | inr other ↦ inl (rw other at i)
        ]
      ])

  abbrev left_over : List String → Configs → List String
  left_over ks configs =
      sorted_texts (select_where (λ k. not (elem k (keys configs))) (unique_keys [] ks))

  elem-left_over :
      (ks : List String) (configs : Configs) (k : String)
      → elem k ks ≡ true
      → elem k (keys configs) ≡ false
      → elem k (left_over ks configs) ≡ true
  elem-left_over ks configs k requested gone =
      let test = λ (s : String). not (elem s (keys configs)) in
      elem-sorted_texts k (select_where test (unique_keys [] ks))
      ∙ elem-select_where test k (unique_keys [] ks) (is_asked ks k requested) (rw gone refl)

  present :
      (configs : Configs)
      → AreGood (IsFound rt now ttl p e db) configs
      → (k : String) → elem k (keys configs) ≡ true
      → (c : FlagConfiguration) × (lookup k configs ≡ some c)
        × (get_config_by_key rt p e k db ≡ ok c)
  present configs good k there =
      let (c, found) = lookup_of_elem k configs there in
      (c, found, AreGood-lookup (IsFound rt now ttl p e db) k configs good found)

  -- The end of a batch whose configurations are good, where a key without one is not in the database.
  require_all-Answers :
      (ks : List String) (configs : Configs)
      → AreGood (IsFound rt now ttl p e db) configs
      → ((k : String)
          → elem k ks ≡ true
          → elem k (keys configs) ≡ false
          → get_config_by_key rt p e k db ≡ err flag_not_found)
      → Answers ks (require_all rt now ttl p e (unique_keys [] ks) configs)
  unfolding require_all
  require_all-Answers ks configs good away =
      let test = λ (s : String). not (elem s (keys configs)) in
      let missing = left_over ks configs in
      elim (Bool-cases (is_nonempty missing)) [
        | inl some_left ↦ incomplete missing (rw some_left refl) some_left (λ k. (
          λ i.
              let (j, t) =
                elem_of-select_where test k (unique_keys [] ks)
                  (sym (elem-sorted_texts k (select_where test (unique_keys [] ks))) ∙ i) in
              let requested = elem_of-unique_keys k [] ks j in
              (requested, away k requested (of_not-true (elem k (keys configs)) t)),
          λ (requested, absent). elim (Bool-cases (elem k (keys configs))) [
            | inl there ↦ absurd (let found = (present configs good k there).2 in cc)
            | inr gone ↦ elem-left_over ks configs k requested gone
          ],
        ))
        | inr none_left ↦ complete configs (rw none_left refl) (λ k requested.
            elim (Bool-cases (elem k (keys configs))) [
              | inl there ↦ present configs good k there
              | inr gone ↦ absurd (
                  let i = elem-left_over ks configs k requested gone in
                  let j = elem_of_empty k missing none_left in cc)
            ])
      ]

  load_misses-ok :
      AllCompile rt p e db
      → (misses : List String) → (r : Configs) × (load_misses rt now ttl p e misses db ≡ ok r)
  load_misses-ok compile [] = ([], refl)
  load_misses-ok compile (k ∷ ks) = get_configs_by_keys-ok rt p e db compile (k ∷ ks)

  load_misses-AreGood :
      HasUniqueKeys p e db
      → (misses : List String) {r : Configs} → load_misses rt now ttl p e misses db ≡ ok r
      → AreGood (IsFound rt now ttl p e db) r
  load_misses-AreGood unique [] h = subst (AreGood (IsFound rt now ttl p e db)) (ok-injective h) tt
  load_misses-AreGood unique (k ∷ ks) h = get_configs_by_keys-AreGood rt p e db unique (k ∷ ks) h

  load_misses-missing :
      (misses : List String) (k : String)
      → elem k misses ≡ true
      → {r : Configs} → load_misses rt now ttl p e misses db ≡ ok r
      → elem k (keys r) ≡ false
      → get_config_by_key rt p e k db ≡ err flag_not_found
  load_misses-missing [] k i h away = absurd (cc)
  load_misses-missing (m ∷ ms) k i h away =
      get_configs_by_keys-missing rt p e db (m ∷ ms) k i h away

  -- While Redis holds only what the database gives, a batch answers each requested key as the database
  -- does, or lists in a 404 exactly the requested keys that the database does not have, whether Redis
  -- answers or not and whichever writes reach it, where no two flags have one key and the live rows
  -- compile.
  pub load_configurations-Answers :
      HasUniqueKeys p e db
      → AllCompile rt p e db
      → (redis : Redis) → IsCoherent rt now db redis
      → (answers : Bool) (written : String → Bool) (ks : List String)
      → Answers ks (load_configurations rt now ttl p e answers written ks db redis).0
  unfolding load_configurations batch_by finish_batch
  load_configurations-Answers unique compile redis coherent answers written ks =
      let asked = unique_keys [] ks in
      let cached = read_all rt now ttl p e answers redis asked in
      let hits =
        take_hits-Partition rt now ttl p e db asked cached []
          (read_all-AreCurrent rt now ttl p e db answers redis coherent asked) tt in
      let (loaded, done) = load_misses-ok compile hits.misses in
      subst (λ o. Answers ks (batch_by rt now ttl p e written asked db redis o).0)
        (sym hits.returned)
        (subst (λ o. Answers ks (finish_batch rt now ttl p e written asked hits.found o redis).0)
          (sym done)
          (require_all-Answers ks (update_entries rt now ttl p e loaded hits.found)
            (update_entries-AreGood loaded hits.found (load_misses-AreGood unique hits.misses done)
              hits.good)
            (λ k requested gone. elim (Bool-cases (elem k (keys loaded))) [
              | inl i ↦ absurd (let j = update_entries-elem k loaded hits.found (inl i) in cc)
              | inr away ↦ elim (hits.covered k (is_asked ks k requested)) [
                | inl i ↦ absurd (let j = update_entries-elem k loaded hits.found (inr i) in cc)
                | inr i ↦ load_misses-missing hits.misses k i done away
              ]
            ])))
