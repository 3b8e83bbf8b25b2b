-- ===== src/Cache/Hits.antt =====
-- backend/app/services/cache.py: the hits and the misses of a batch.
use cohort_switch.Prelude.{
  ℕ, ◌≡◌, refl, ap, ◌∙◌, String, Option, none, some, Bool, true, List, [], ◌∷◌, inl, inr,
  Bool-cases, str_eq, elem, keys, ◌⊎◌,
}
use cohort_switch.Errors.{ok, ◌>>=◌}
use cohort_switch.Runtime.{Runtime}
use cohort_switch.Evaluation.Models.{FlagConfiguration}
use cohort_switch.Flags.Building.{set_entry}
use cohort_switch.Flags.Tables.{Db}
use cohort_switch.Flags.Lookup.{get_config_by_key}
use cohort_switch.Flags.Lookup.Dicts.{AreGood, AreGood-set_entry, elem-set_entry}
use cohort_switch.Cache.{Redis, read_all, take_hits}
use cohort_switch.Cache.Coherence.{IsCoherent, read_cached-current, get_config_by_key-validated}

abbrev pub Configs : Type 0
Configs = List (String × FlagConfiguration)

module _ (rt : Runtime) (now ttl p e : ℕ) (db : Db) where
  -- The configuration is what the database gives under its key.
  abbrev pub IsFound : String → FlagConfiguration → Type 0
  IsFound k c = get_config_by_key rt p e k db ≡ ok c

  -- What was read under each key is found there.
  pub AreCurrent : List String → List (Option FlagConfiguration) → Type 0
  AreCurrent [] [] = Unit
  AreCurrent (k ∷ ks) (o ∷ cached) =
      ((c : FlagConfiguration) → o ≡ some c → IsFound k c) × AreCurrent ks cached
  AreCurrent _ _ = ⊥

  pub read_all-AreCurrent :
      (answers : Bool) (redis : Redis)
      → IsCoherent rt now db redis
      → (ks : List String) → AreCurrent ks (read_all rt now ttl p e answers redis ks)
  unfolding read_all AreCurrent
  read_all-AreCurrent answers redis coherent [] = tt
  read_all-AreCurrent answers redis coherent (k ∷ ks) = (
    λ c hit. read_cached-current rt now db answers ttl p e k redis c coherent hit,
    read_all-AreCurrent answers redis coherent ks,
  )

  pub record Partition (ks : List String) (cached : List (Option FlagConfiguration)) (d : Configs)
      : Type 0 where
    pub found : Configs
    pub misses : List String
    pub returned : take_hits rt now ttl p e ks cached d ≡ ok (found, misses)
    pub good : AreGood IsFound found
    pub kept : (k : String) → elem k (keys d) ≡ true → elem k (keys found) ≡ true
    pub covered :
        (k : String) → elem k ks ≡ true → (elem k (keys found) ≡ true) ⊎ (elem k misses ≡ true)
    pub asked : (k : String) → elem k misses ≡ true → elem k ks ≡ true

  pub take_hits-Partition :
      (ks : List String) (cached : List (Option FlagConfiguration)) (d : Configs)
      → AreCurrent ks cached
      → AreGood IsFound d
      → Partition ks cached d
  unfolding take_hits AreCurrent
  take_hits-Partition [] [] d current good = record {
    found = d;
    misses = [];
    returned = refl;
    good = good;
    kept = λ k h. h;
    covered = λ k h. absurd (cc);
    asked = λ k h. absurd (cc);
  }
  take_hits-Partition (x ∷ ks) (none ∷ cached) d current good =
      let rest = take_hits-Partition ks cached d current.1 good in
      record {
        found = rest.found;
        misses = x ∷ rest.misses;
        returned = rw rest.returned refl;
        good = rest.good;
        kept = rest.kept;
        covered = λ k h. elim (Bool-cases (str_eq x k)) [
          | inl same ↦ inr (rw same refl)
          | inr other ↦ elim (rest.covered k (rw other at h)) [
            | inl i ↦ inl i
            | inr i ↦ inr (rw other i)
          ]
        ];
        asked = λ k h. elim (Bool-cases (str_eq x k)) [
          | inl same ↦ rw same refl
          | inr other ↦ rw other (rest.asked k (rw other at h))
        ];
      }
  take_hits-Partition (x ∷ ks) (some c ∷ cached) d current good =
      let at = current.0 c refl in
      let rest =
        take_hits-Partition ks cached (set_entry x c d) current.1
          (AreGood-set_entry IsFound x c d good at) in
      record {
        found = rest.found;
        misses = rest.misses;
        returned =
            ap (λ o. o >>= λ config. take_hits rt now ttl p e ks cached (set_entry x config d))
              (get_config_by_key-validated rt db p e x at)
            ∙ rest.returned;
        good = rest.good;
        kept = λ k h. rest.kept k (elem-set_entry x k c d (inr h));
        covered = λ k h. elim (Bool-cases (str_eq x k)) [
          | inl same ↦ inl (rest.kept k (elem-set_entry x k c d (inl same)))
          | inr other ↦ rest.covered k (rw other at h)
        ];
        asked = λ k h. elim (Bool-cases (str_eq x k)) [
          | inl same ↦ rw same refl
          | inr other ↦ rw other (rest.asked k h)
        ];
      }
  take_hits-Partition [] (o ∷ cached) d current good = elim current [ ]
  take_hits-Partition (x ∷ ks) [] d current good = elim current [ ]
