-- ===== src/Samples/Warm.antt =====
-- A cache that has loaded the flag of the samples, for the tests.
use cohort_switch.Prelude.{
  ℕ, zero, suc, ◌≡◌, refl, ap, subst, String, true, [], ◌∷◌, inl, inr, IsIn, arith, sym, ◌∙◌,
}
use cohort_switch.Prelude.Sort.{sorted}
use cohort_switch.Errors.{Result, ok}
use cohort_switch.Evaluation.Models.{FlagConfiguration}
use cohort_switch.Flags.Tables.{Db}
use cohort_switch.Flags.Storage.{compile_configuration}
use cohort_switch.Flags.Lookup.{Loaded, loaded_rows, compile_row, get_config_by_key}
use cohort_switch.Flags.Lookup.Keys.{HasUniqueKeys, AllCompile}
use cohort_switch.Cache.{Redis, load_configuration}
use cohort_switch.Cache.Keys.{IsNaming, is_plain}
use cohort_switch.Cache.Coherence.{IsCoherent, IsCoherent-later, load_configuration-IsCoherent}
use cohort_switch.Samples.{stand_in, marks, run_create}

abbrev size : String → ℕ
size String.[] = 0
size (String.◌∷◌ c s) = suc (size s)

size-marks : (n : ℕ) → size (marks n) ≡ n
size-marks zero = refl
size-marks (suc n) = ap suc (size-marks n)

marks_plain : (n : ℕ) → is_plain (marks n) ≡ true
marks_plain zero = refl
marks_plain (suc n) = marks_plain n

pub stand_in-IsNaming : IsNaming stand_in
stand_in-IsNaming = record {
  distinct = λ i j h. sym (size-marks i) ∙ ap size h ∙ size-marks j;
  plain = marks_plain;
}

abbrev pub rows : Db
rows = run_create.1

unfoldable pub found :
    (c : FlagConfiguration) × (get_config_by_key stand_in 2 4 "new_checkout" rows ≡ ok c)
unfolding get_config_by_key run_create sorted
found = (_, refl)

unfoldable pub first_load :
    (r : Redis) × (load_configuration stand_in 10 30 2 4 true true "new_checkout" rows []
      ≡ (ok found.0, r))
unfolding load_configuration found run_create sorted
first_load = (_, refl)

abbrev pub warm : Redis
warm = first_load.0

pub warm-IsCoherent : IsCoherent stand_in 20 rows warm
warm-IsCoherent = IsCoherent-later stand_in 10 20 (omega arith) rows warm (
    subst (IsCoherent stand_in 10 rows)
      (ap (λ (o : Result FlagConfiguration × Redis). o.1) first_load.1)
      (load_configuration-IsCoherent stand_in 10 rows stand_in-IsNaming 30 2 4 true true
        "new_checkout" [] tt).1)

one_row : (l : Loaded) × (loaded_rows rows rows.configs ≡ l ∷ [])
unfolding run_create
one_row = (_, refl)

only : (a b : Loaded) → IsIn a (b ∷ []) → a ≡ b
only a b (inl e) = e
only a b (inr i) = elim i [ ]

is_the_row : (a : Loaded) → IsIn a (loaded_rows rows rows.configs) → a ≡ one_row.0
is_the_row a i = only a one_row.0 (subst (IsIn a) one_row.1 i)

pub rows-HasUniqueKeys : HasUniqueKeys 2 4 rows
rows-HasUniqueKeys k a b i j h h' = is_the_row a i ∙ sym (is_the_row b j)

row_compiles : (c : FlagConfiguration) × (compile_row stand_in one_row.0 ≡ ok c)
unfolding compile_configuration one_row run_create sorted
row_compiles = (_, refl)

pub rows-AllCompile : AllCompile stand_in 2 4 rows
rows-AllCompile l i live =
    (row_compiles.0, ap (compile_row stand_in) (is_the_row l i) ∙ row_compiles.1)
