-- ===== src/Sdk/Caching.antt =====
-- sdk/python/src/cohortswitch: the decisions that the client caches.
use cohort_switch.Prelude.{
  ℕ, ◌+◌, ◌<◌, ◌≤◌, ◌≡◌, refl, sym, ap, ◌∙◌, String, Option, none, some, true, false, List, [], ◌∷◌,
  inl, inr, arith, Bool-cases, ◌==◌, ltb, str_eq, lookup, length,
}
use cohort_switch.Prelude.Int.{ℤ}
use cohort_switch.Errors.{Result}
use cohort_switch.Evaluation.Value.{Value}
use cohort_switch.Flags.Lookup.Dicts.{lookup-set_entry}
use cohort_switch.Sdk.{
  Decision, Outcome, returned, failed, Reply, Cached, Client, post, decided, unexpired, prune_cache,
  keep, keep_outcome, evaluate_by, evaluate, cache_key,
}

-- An entry that is not expired is not pruned.
lookup-unexpired :
    (now : ℕ) (key : String) (c : Cached) (cache : List (String × Cached))
    → now < c.expires_at
    → lookup key cache ≡ some c
    → lookup key (unexpired now cache) ≡ some c
unfolding unexpired
lookup-unexpired now key c [] fresh found = found
lookup-unexpired now key c ((k, d) ∷ cache) fresh found = elim (Bool-cases (str_eq k key)) [
  | inl same ↦ grind arith
  | inr other ↦ elim (Bool-cases (ltb now d.expires_at)) [
    | inl later ↦ rw later (rw other (lookup-unexpired now key c cache fresh (rw other at found)))
    | inr over ↦ rw over (lookup-unexpired now key c cache fresh (rw other at found))
  ]
]

lookup-prune_cache :
    (now : ℕ) (key : String) (c : Cached) (client : Client)
    → now < c.expires_at
    → lookup key client.cache ≡ some c
    → lookup key (prune_cache now client).cache ≡ some c
unfolding prune_cache
lookup-prune_cache now key c client fresh found =
    elim (Bool-cases (ltb 10000 (length client.cache))) [
      | inl many ↦ rw many (lookup-unexpired now key c client.cache fresh found)
      | inr few ↦ rw few found
    ]

lookup-keep :
    (now : ℕ) (key : String) (d : Decision) (client : Client)
    → 0 < client.cache_ttl
    → lookup key (keep now key d client).cache
      ≡ some (record { expires_at = now + client.cache_ttl; result = d })
unfolding keep
lookup-keep now key d client caches =
    let on : (client.cache_ttl == 0) ≡ false = ground arith in
    rw on (lookup-prune_cache now key _ _ (omega arith) (lookup-set_entry key _ client.cache))

-- What follows a request leaves the decision that it returns in the cache.
keep_outcome-returned :
    (now : ℕ) (key : String) (o : Outcome Decision) (d : Decision) (client after : Client)
    → 0 < client.cache_ttl
    → keep_outcome now key o client ≡ (returned d, after)
    → lookup key after.cache ≡ some (record { expires_at = now + client.cache_ttl; result = d })
unfolding keep_outcome
keep_outcome-returned now key (failed f) d client after caches h = grind arith
keep_outcome-returned now key (returned e) d client after caches h =
    let same = ap (λ (p : Outcome Decision × Client). p.0) h in
    let kept = ap (λ (p : Outcome Decision × Client). p.1) h in
    let at : e ≡ d = cc in rw (sym kept) (rw (sym at) (lookup-keep now key e client caches))

evaluate_by-fresh :
    (to_text : Value → String) (to_int : Value → Result ℤ) (to_time : String → Result ℕ)
    (asked ended : ℕ) (key : String) (c : Cached) (reply : Reply (List (String × Value)))
    (client : Client)
    → asked < c.expires_at
    → evaluate_by to_text to_int to_time (some c) asked ended key reply client
      ≡ (returned c.result, client)
unfolding evaluate_by
evaluate_by-fresh to_text to_int to_time asked ended key c reply client fresh =
    let on : ltb asked c.expires_at ≡ true = ground arith in rw on refl

evaluate_by-stale :
    (to_text : Value → String) (to_int : Value → Result ℤ) (to_time : String → Result ℕ)
    (asked ended : ℕ) (key : String) (reply : Reply (List (String × Value))) (client : Client)
    (found : Option Cached)
    → ((c : Cached) → found ≡ some c → c.expires_at ≤ asked)
    → evaluate_by to_text to_int to_time found asked ended key reply client
      ≡ keep_outcome ended key (decided to_text to_int to_time (post reply)) client
unfolding evaluate_by
evaluate_by-stale to_text to_int to_time asked ended key reply client none stale = refl
evaluate_by-stale to_text to_int to_time asked ended key reply client (some c) stale =
    let over = stale c refl in
    let off : ltb asked c.expires_at ≡ false = ground arith in rw off refl

-- One call of `evaluate` after another, with the same arguments. Where the client caches and had no
-- entry in force at the first call, and that call returned a decision, the second one returns the same
-- decision and leaves the client as it is, whatever the server would answer, as long as it comes before
-- the time to live has passed since the end of the first request.
pub evaluate_again :
    (to_text : Value → String) (to_int : Value → Result ℤ) (to_time : String → Result ℕ)
    (canonical : List (String × Value) → String) (digest : String → String)
    (asked ended later later_end : ℕ) (flag_key subject_key : String)
    (attributes : List (String × Value)) (reply other : Reply (List (String × Value)))
    (client after : Client) (d : Decision)
    → 0 < client.cache_ttl
    → ((c : Cached)
        → lookup (cache_key canonical digest flag_key subject_key attributes) client.cache ≡ some c
        → c.expires_at ≤ asked)
    → evaluate to_text to_int to_time canonical digest asked ended flag_key subject_key attributes
        reply client
      ≡ (returned d, after)
    → later < ended + client.cache_ttl
    → evaluate to_text to_int to_time canonical digest later later_end flag_key subject_key
        attributes other after
      ≡ (returned d, after)
unfolding evaluate
evaluate_again to_text to_int to_time canonical digest asked ended later later_end flag_key
      subject_key attributes reply other client after d caches stale first before =
    let key = cache_key canonical digest flag_key subject_key attributes in
    let found =
      keep_outcome-returned ended key (decided to_text to_int to_time (post reply)) d client after
        caches
        (sym (
            evaluate_by-stale to_text to_int to_time asked ended key reply client
              (lookup key client.cache) stale)
          ∙ first) in
    rw found (evaluate_by-fresh to_text to_int to_time later later_end key _ other after before)
