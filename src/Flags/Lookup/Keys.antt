-- ===== src/Flags/Lookup/Keys.antt =====
-- backend/app/services/flags.py: `get_configs_by_keys`, against `get_config_by_key`.
use cohort_switch.Prelude.{
  ℕ, ◌≡◌, refl, sym, ap, ◌∙◌, subst, String, some, Bool, true, false, ◌&&◌, List, [], ◌∷◌, inl, inr,
  Option-cases, str_eq, eq_iff, eq_refl, elem, keys, All, All-of_at, IsIn, ◌⊎◌,
}
use cohort_switch.Errors.{ok, err, >>=-eq-ok, ok-injective, ◌>>=◌}
use cohort_switch.Runtime.{Runtime}
use cohort_switch.Evaluation.Models.{FlagConfiguration}
use cohort_switch.Flags.Building.{set_entry}
use cohort_switch.Flags.Tables.{Db, find_where, select_where, or_raise}
use cohort_switch.Flags.Store.Lists.{
  find_where-test, mem-find_where, find_where-mem, select_where-mem, mem-select_where,
}
use cohort_switch.Flags.Lookup.{
  Loaded, loaded_rows, is_live, has_key, compile_row, get_config_by_key, compile_into,
  get_configs_by_keys, flag_not_found,
}
use cohort_switch.Flags.Lookup.Dicts.{AreGood, AreGood-set_entry, elem-set_entry}

-- No two flags of the project and the environment have one key: the unique constraints of the tables.
abbrev pub HasUniqueKeys : ℕ → ℕ → Db → Type 0
HasUniqueKeys p e db =
    (k : String) (a b : Loaded)
    → IsIn a (loaded_rows db db.configs)
    → IsIn b (loaded_rows db db.configs)
    → has_key p e k a ≡ true
    → has_key p e k b ≡ true
    → a ≡ b

both_true : (a b : Bool) → a ≡ true → b ≡ true → (a && b) ≡ true
both_true a b h k = rw (h, k) refl

first_true : (a b : Bool) → (a && b) ≡ true → a ≡ true
first_true true b h = refl
first_true false b h = h

second_true : (a b : Bool) → (a && b) ≡ true → b ≡ true
second_true true b h = h
second_true false b h = absurd (cc)

module _ (rt : Runtime) where
  compile_into-AreGood :
      (Good : String → FlagConfiguration → Type 0) (d : List (String × FlagConfiguration))
      (rows : List Loaded)
      → All (λ l. (c : FlagConfiguration) → compile_row rt l ≡ ok c → Good l.flag.key c) rows
      → AreGood Good d
      → {r : List (String × FlagConfiguration)} → compile_into rt d rows ≡ ok r
      → AreGood Good r
  unfolding compile_into
  compile_into-AreGood Good d [] h good e = subst (AreGood Good) (ok-injective e) good
  compile_into-AreGood Good d (l ∷ rows) h good e =
      let (c, e₁, e₂) = >>=-eq-ok (compile_row rt l) _ e in
      compile_into-AreGood Good (set_entry l.flag.key c d) rows h.1
        (AreGood-set_entry Good l.flag.key c d good (h.0 c e₁)) e₂

  compile_into-elem :
      (k : String) (d : List (String × FlagConfiguration)) (rows : List Loaded)
      → (elem k (keys d) ≡ true) ⊎ ((l : Loaded) × IsIn l rows × (str_eq l.flag.key k ≡ true))
      → {r : List (String × FlagConfiguration)} → compile_into rt d rows ≡ ok r
      → elem k (keys r) ≡ true
  unfolding compile_into
  compile_into-elem k d [] (inl h) e = subst (λ r. elem k (keys r) ≡ true) (ok-injective e) h
  compile_into-elem k d [] (inr h) e = elim h.1 [ ]
  compile_into-elem k d (l ∷ rows) h e =
      let (c, e₁, e₂) = >>=-eq-ok (compile_row rt l) _ e in
      compile_into-elem k (set_entry l.flag.key c d) rows
        (elim h [
          | inl before ↦ inl (elem-set_entry l.flag.key k c d (inr before))
          | inr (m, i, same) ↦ elim i [
            | inl here ↦ inl (
                elem-set_entry l.flag.key k c d
                  (inl (subst (λ (n : Loaded). str_eq n.flag.key k ≡ true) here same)))
            | inr there ↦ inr (m, there, same)
          ]
        ])
        e₂

  module _ (p e : ℕ) (db : Db) (unique : HasUniqueKeys p e db) where
    -- A row that is live is the one that its key finds.
    row_found :
        (l : Loaded)
        → IsIn l (loaded_rows db db.configs)
        → is_live p e l ≡ true
        → (c : FlagConfiguration) → compile_row rt l ≡ ok c
        → get_config_by_key rt p e l.flag.key db ≡ ok c
    unfolding get_config_by_key
    row_found l i live c compiled =
        let rows = loaded_rows db db.configs in
        let hit =
          both_true (is_live p e l) (str_eq l.flag.key l.flag.key) live (eq_refl l.flag.key) in
        let (m, found) = find_where-mem (has_key p e l.flag.key) rows l i hit in
        let same =
          unique l.flag.key m l (mem-find_where (has_key p e l.flag.key) rows found) i
            (find_where-test (has_key p e l.flag.key) rows found) hit in
        ap (λ o. or_raise o flag_not_found >>= compile_row rt) (found ∙ ap some same) ∙ compiled

    -- What a batch of keys finds is what each key finds.
    pub get_configs_by_keys-AreGood :
        (ks : List String) {r : List (String × FlagConfiguration)}
        → get_configs_by_keys rt p e ks db ≡ ok r
        → AreGood (λ k c. get_config_by_key rt p e k db ≡ ok c) r
    unfolding get_configs_by_keys
    get_configs_by_keys-AreGood ks h =
        let test = λ (l : Loaded). is_live p e l && elem l.flag.key ks in
        let rows = loaded_rows db db.configs in
        compile_into-AreGood (λ k c. get_config_by_key rt p e k db ≡ ok c) []
          (select_where test rows)
          (All-of_at _ (select_where test rows) (λ l i.
            let (j, passed) = select_where-mem test rows l i in
            row_found l j (first_true (is_live p e l) (elem l.flag.key ks) passed)))
          tt h

  -- A key that a batch does not find is found by no lookup.
  pub get_configs_by_keys-missing :
      (p e : ℕ) (db : Db) (ks : List String) (k : String)
      → elem k ks ≡ true
      → {r : List (String × FlagConfiguration)} → get_configs_by_keys rt p e ks db ≡ ok r
      → elem k (keys r) ≡ false
      → get_config_by_key rt p e k db ≡ err flag_not_found
  unfolding get_configs_by_keys get_config_by_key
  get_configs_by_keys-missing p e db ks k asked h away =
      let test = λ (l : Loaded). is_live p e l && elem l.flag.key ks in
      let rows = loaded_rows db db.configs in
      elim (Option-cases (find_where (has_key p e k) rows)) [
        | inl none_there ↦ ap (λ o. or_raise o flag_not_found >>= compile_row rt) none_there
        | inr (l, found) ↦
            let passed = find_where-test (has_key p e k) rows found in
            let same = second_true (is_live p e l) (str_eq l.flag.key k) passed in
            let named = subst (λ s. elem s ks ≡ true) (sym ((eq_iff l.flag.key k).0 same)) asked in
            let chosen = mem-select_where test rows l (mem-find_where (has_key p e k) rows found) (
              both_true (is_live p e l) (elem l.flag.key ks)
                (first_true (is_live p e l) (str_eq l.flag.key k) passed) named) in
            let there = compile_into-elem k [] (select_where test rows) (inr (l, chosen, same)) h in
            absurd (cc)
      ]

  -- Every row that is live compiles.
  abbrev pub AllCompile : ℕ → ℕ → Db → Type 0
  AllCompile p e db =
      (l : Loaded)
      → IsIn l (loaded_rows db db.configs)
      → is_live p e l ≡ true
      → (c : FlagConfiguration) × (compile_row rt l ≡ ok c)

  compile_into-ok :
      (d : List (String × FlagConfiguration)) (rows : List Loaded)
      → All (λ l. (c : FlagConfiguration) × (compile_row rt l ≡ ok c)) rows
      → (r : List (String × FlagConfiguration)) × (compile_into rt d rows ≡ ok r)
  unfolding compile_into
  compile_into-ok d [] h = (d, refl)
  compile_into-ok d (l ∷ rows) h =
      let (c, e) = h.0 in
      let (r, done) = compile_into-ok (set_entry l.flag.key c d) rows h.1 in
      (r, ap (λ o. o >>= λ c'. compile_into rt (set_entry l.flag.key c' d) rows) e ∙ done)

  pub get_configs_by_keys-ok :
      (p e : ℕ) (db : Db)
      → AllCompile p e db
      → (ks : List String)
      → (r : List (String × FlagConfiguration)) × (get_configs_by_keys rt p e ks db ≡ ok r)
  unfolding get_configs_by_keys
  get_configs_by_keys-ok p e db compile ks =
      let test = λ (l : Loaded). is_live p e l && elem l.flag.key ks in
      let rows = loaded_rows db db.configs in
      compile_into-ok [] (select_where test rows) (
        All-of_at _ (select_where test rows) (λ l i.
          let (j, passed) = select_where-mem test rows l i in
          compile l j (first_true (is_live p e l) (elem l.flag.key ks) passed)))
