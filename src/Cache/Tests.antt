-- ===== src/Cache/Tests.antt =====
-- The theorems on the cache at concrete inputs.
use cohort_switch.Prelude.{◌≡◌, ap, subst, true, false, [], ◌∷◌, arith}
use cohort_switch.Errors.{Result, ok}
use cohort_switch.Evaluation.Models.{FlagConfiguration}
use cohort_switch.Flags.Lookup.{get_config_by_key}
use cohort_switch.Cache.{
  Redis, answered, load_configuration, write_cached, invalidate_and_publish, load_configurations,
}
use cohort_switch.Cache.Coherence.{IsCoherent, load_configuration-IsCoherent}
use cohort_switch.Cache.Staleness.{
  Reached, empty, load, late, wait, invalidate, load_configuration_settled,
  load_configuration_overtaken,
}
use cohort_switch.Cache.Batch.{Answers, load_configurations-Answers}
use cohort_switch.Samples.{stand_in, run_update}
use cohort_switch.Samples.Warm.{
  stand_in-IsNaming, rows, found, first_load, warm, warm-IsCoherent, rows-HasUniqueKeys,
  rows-AllCompile,
}

load_configuration-IsCoherent_example :
    ((load_configuration stand_in 20 30 2 4 true true "new_checkout" rows warm).0
      ≡ get_config_by_key stand_in 2 4 "new_checkout" rows)
    × IsCoherent stand_in 20 rows
        (load_configuration stand_in 20 30 2 4 true true "new_checkout" rows warm).1
load_configuration-IsCoherent_example =
    load_configuration-IsCoherent stand_in 20 rows stand_in-IsNaming 30 2 4 true true "new_checkout"
      warm warm-IsCoherent

-- a slow write at 12, behind an invalidation
left_behind :
    (c : FlagConfiguration)
    → Reached stand_in 30 12 (
        write_cached stand_in 12 30 2 4 true "new_checkout" c
          (invalidate_and_publish stand_in 2 4 answered answered "new_checkout" "flag.updated" 2 8
            warm []).0)
left_behind c = late 2 4 true "new_checkout" c (
    invalidate 2 4 answered answered "new_checkout" "flag.updated" 2 8 [] (
      wait
        (subst (Reached stand_in 30 10)
          (ap (λ (o : Result FlagConfiguration × Redis). o.1) first_load.1)
          (load 2 4 true true "new_checkout" rows (empty 10)))
        (omega arith)))

load_configuration_settled_example :
    (load_configuration stand_in 42 30 2 4 true true "new_checkout" run_update.1 (
      write_cached stand_in 12 30 2 4 true "new_checkout" found.0
        (invalidate_and_publish stand_in 2 4 answered answered "new_checkout" "flag.updated" 2 8
          warm []).0)).0
    ≡ get_config_by_key stand_in 2 4 "new_checkout" run_update.1
load_configuration_settled_example =
    load_configuration_settled stand_in 30 (left_behind found.0) 42 (omega arith) 2 4 true true
      "new_checkout" run_update.1

load_configuration_overtaken_example :
    (load_configuration stand_in 41 30 2 4 true true "new_checkout" run_update.1 (
      write_cached stand_in 12 30 2 4 true "new_checkout" found.0
        (invalidate_and_publish stand_in 2 4 answered answered "new_checkout" "flag.updated" 2 8
          warm []).0)).0
    ≡ ok found.0
load_configuration_overtaken_example =
    load_configuration_overtaken stand_in 30 2 4 "new_checkout" rows run_update.1 found.0 warm
      found.1 12 "flag.updated" 2 8 [] 41 (omega arith)

load_configurations-Answers_example :
    Answers stand_in 20 30 2 4 rows
      ("absent" ∷ "new_checkout" ∷ "absent" ∷ [])
      (load_configurations stand_in 20 30 2 4 true
        (λ k. false)
        ("absent" ∷ "new_checkout" ∷ "absent" ∷ [])
        rows
        warm).0
load_configurations-Answers_example =
    load_configurations-Answers stand_in 20 30 2 4 rows rows-HasUniqueKeys rows-AllCompile warm
      warm-IsCoherent true (λ k. false) ("absent" ∷ "new_checkout" ∷ "absent" ∷ [])
