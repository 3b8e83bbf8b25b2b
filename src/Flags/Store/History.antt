-- ===== src/Flags/Store/History.antt =====
-- backend/app/services/flags.py: the versions of a configuration, and its current one.
use cohort_switch.Prelude.{
  ℕ, zero, suc, ◌+◌, ◌<◌, ◌≡◌, refl, sym, ◌∙◌, ap, true, false, List, [], ◌∷◌, ◌++◌, inl, inr,
  arith, All, any, ◌==◌, Bool-cases, if◌then◌else◌, length, length-append,
}
use cohort_switch.Database.{FlagConfig, FlagVersion}
use cohort_switch.Flags.Tables.{is_at}

-- The versions that are recorded for a configuration, in the order of their rows.
pub versions_of : ℕ → List FlagVersion → List ℕ
versions_of id [] = []
versions_of id (v ∷ versions) =
    if v.config_id == id then v.version ∷ versions_of id versions else versions_of id versions

-- 1, 2, ..., n
pub up_to : ℕ → List ℕ
up_to zero = []
up_to (suc n) = up_to n ++ (suc n ∷ [])

abbrev pub HasHistory : List FlagVersion → FlagConfig → Type 0
HasHistory versions c = versions_of c.id versions ≡ up_to c.current_version

length-up_to : (n : ℕ) → length (up_to n) ≡ n
unfolding up_to
length-up_to zero = refl
length-up_to (suc n) = omega (arith, length-append (up_to n) (suc n ∷ []), length-up_to n)

up_to-injective : (m n : ℕ) → up_to m ≡ up_to n → m ≡ n
up_to-injective m n h = sym (length-up_to m) ∙ ap length h ∙ length-up_to n

up_to-next : (n : ℕ) → up_to (n + 1) ≡ up_to n ++ ((n + 1) ∷ [])
unfolding up_to
up_to-next n = let e : n + 1 ≡ suc n = omega arith in rw e refl

versions_of-other :
    (id : ℕ) (v : FlagVersion) (versions : List FlagVersion)
    → (v.config_id == id) ≡ false
    → versions_of id (versions ++ (v ∷ [])) ≡ versions_of id versions
unfolding versions_of
versions_of-other id v [] h = rw h refl
versions_of-other id v (w ∷ versions) h =
    ap (λ rest. if w.config_id == id then w.version ∷ rest else rest)
      (versions_of-other id v versions h)

versions_of-own :
    (id : ℕ) (v : FlagVersion) (versions : List FlagVersion)
    → (v.config_id == id) ≡ true
    → versions_of id (versions ++ (v ∷ [])) ≡ versions_of id versions ++ (v.version ∷ [])
unfolding versions_of
versions_of-own id v [] h = rw h refl
versions_of-own id v (w ∷ versions) h = elim (Bool-cases (w.config_id == id)) [
  | inl hit_case ↦ rw hit_case (ap (λ rest. w.version ∷ rest) (versions_of-own id v versions h))
  | inr miss_case ↦ rw miss_case (versions_of-own id v versions h)
]

-- A configuration that the compare-and-set finds has the history up to the expected version.
pub history_of_match :
    (id expected : ℕ) (versions : List FlagVersion) (configs : List FlagConfig)
    → All (HasHistory versions) configs
    → any (is_at id expected) configs ≡ true
    → versions_of id versions ≡ up_to expected
history_of_match id expected versions [] h m = absurd (cc)
history_of_match id expected versions (c ∷ configs) h m = elim (Bool-cases (is_at id expected c)) [
  | inl hit_case ↦
      let e : c.id ≡ id = ground arith in
      let e' : c.current_version ≡ expected = ground arith in
      ap (λ i. versions_of i versions) (sym e) ∙ h.0 ∙ ap up_to e'
  | inr miss_case ↦ history_of_match id expected versions configs h.1 (rw miss_case at m)
]

-- Every configuration with the id that was found stands at the expected version.
pub current_of_match :
    (id expected : ℕ) (versions : List FlagVersion) (c : FlagConfig)
    → versions_of id versions ≡ up_to expected
    → HasHistory versions c
    → c.id ≡ id
    → c.current_version ≡ expected
current_of_match id expected versions c found h e =
    up_to-injective _ _ (sym h ∙ ap (λ i. versions_of i versions) e ∙ found)

-- Recording the version after the current one extends the history.
pub HasHistory-extended :
    (v : FlagVersion) (versions : List FlagVersion) (c d : FlagConfig)
    → HasHistory versions c
    → d.id ≡ c.id
    → v.config_id ≡ c.id
    → v.version ≡ c.current_version + 1
    → d.current_version ≡ c.current_version + 1
    → HasHistory (versions ++ (v ∷ [])) d
HasHistory-extended v versions c d h same own next current =
    versions_of-own d.id v versions (ground arith)
    ∙ ap (λ i. versions_of i versions ++ (v.version ∷ [])) same
    ∙ ap (λ xs. xs ++ (v.version ∷ [])) h
    ∙ ap (λ n. up_to c.current_version ++ (n ∷ [])) next
    ∙ sym (up_to-next c.current_version)
    ∙ ap up_to (sym current)

-- A version of another configuration changes no history.
pub HasHistory-other :
    (v : FlagVersion) (versions : List FlagVersion) (c : FlagConfig)
    → HasHistory versions c
    → (v.config_id == c.id) ≡ false
    → HasHistory (versions ++ (v ∷ [])) c
HasHistory-other v versions c h other = versions_of-other c.id v versions other ∙ h

versions_of-fresh :
    (id : ℕ) (versions : List FlagVersion)
    → All (λ w. w.config_id < id) versions
    → versions_of id versions ≡ []
unfolding versions_of
versions_of-fresh id [] h = refl
versions_of-fresh id (w ∷ versions) h =
    let other : (w.config_id == id) ≡ false = ground arith in
    rw other (versions_of-fresh id versions h.1)

up_to_one : up_to 1 ≡ 1 ∷ []
unfolding up_to
up_to_one = refl

-- A configuration without versions gets its first.
pub HasHistory-first :
    (v : FlagVersion) (versions : List FlagVersion) (c : FlagConfig)
    → All (λ w. w.config_id < c.id) versions
    → v.config_id ≡ c.id
    → v.version ≡ 1
    → c.current_version ≡ 1
    → HasHistory (versions ++ (v ∷ [])) c
HasHistory-first v versions c fresh own first current =
    versions_of-own c.id v versions (ground arith)
    ∙ ap (λ xs. xs ++ (v.version ∷ [])) (versions_of-fresh c.id versions fresh)
    ∙ ap (λ n. n ∷ []) first
    ∙ sym (ap up_to current ∙ up_to_one)
