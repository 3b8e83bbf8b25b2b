-- ===== src/Sdk/Tests.antt =====
-- sdk/python/src/cohortswitch: the client on concrete replies.
use cohort_switch.Prelude.{ℕ, ◌≡◌, refl, String, none, true, List, [], ◌∷◌, arith}
use cohort_switch.Prelude.Int.{ℤ, pos}
use cohort_switch.Errors.{Result, ok, err, type_error}
use cohort_switch.Evaluation.Value.{Value, bool, int, str, null}
use cohort_switch.Flags.Building.{set_entry}
use cohort_switch.Sdk.{
  Decision, returned, failed, sdk_error, timed_out, answered, Client, post, decided, from_payload,
  prune_cache, keep, keep_outcome, evaluate_by, evaluate, cache_key, boolean_of, is_enabled,
}
use cohort_switch.Sdk.Caching.{evaluate_again}

abbrev text_of : Value → String
text_of (str s) = s
text_of _ = ""

abbrev int_of : Value → Result ℤ
int_of (int n) = ok n
int_of _ = err type_error

abbrev time_of : String → Result ℕ
time_of s = ok 0

abbrev canonical_text : List (String × Value) → String
canonical_text attributes = "{}"

abbrev same_text : String → String
same_text s = s

abbrev payload_on : Value → List (String × Value)
payload_on v =
    ("flag_key", str "checkout")
    ∷ ("value", v)
    ∷ ("variation", str "on")
    ∷ ("reason", str "DEFAULT")
    ∷ ("config_version", int (pos 3))
    ∷ ("evaluated_at", str "2026-01-01T00:00:00Z")
    ∷ []

abbrev decision_on : Decision
decision_on = record {
  flag_key = "checkout";
  value = bool true;
  variation = "on";
  reason = "DEFAULT";
  matched_rule = null;
  config_version = pos 3;
  evaluated_at = 0;
}

abbrev fresh_client : Client
fresh_client = record { cache_ttl = 50; cache = [] }

abbrev warm_client : Client
warm_client = record {
  cache_ttl = 50;
  cache = ("checkout\0ann\0{}", record { expires_at = 62; result = decision_on }) ∷ [];
}

test_evaluate_miss :
    evaluate text_of int_of time_of canonical_text same_text 10 12 "checkout" "ann" []
      (answered (payload_on (bool true)))
      fresh_client
    ≡ (returned decision_on, warm_client)
unfolding evaluate evaluate_by keep_outcome keep prune_cache set_entry decided post from_payload
    cache_key
test_evaluate_miss = refl

test_is_enabled_mismatch :
    (is_enabled text_of int_of time_of canonical_text same_text 10 12 "checkout" "ann" []
      (answered (payload_on (int (pos 1))))
      fresh_client).0
    ≡ failed (sdk_error "type_mismatch" none)
unfolding is_enabled boolean_of evaluate evaluate_by keep_outcome keep prune_cache set_entry decided
    post from_payload cache_key
test_is_enabled_mismatch = refl

evaluate_again_example :
    evaluate text_of int_of time_of canonical_text same_text 30 31 "checkout" "ann" [] timed_out
      warm_client
    ≡ (returned decision_on, warm_client)
evaluate_again_example =
    evaluate_again text_of int_of time_of canonical_text same_text 10 12 30 31 "checkout" "ann" []
      (answered (payload_on (bool true))) timed_out fresh_client warm_client decision_on
      (omega arith) (λ c h. absurd (cc)) test_evaluate_miss (omega arith)
