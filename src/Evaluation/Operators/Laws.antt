-- ===== src/Evaluation/Operators/Laws.antt =====
-- backend/app/evaluation/operators.py: missing attributes, booleans, mixed types and exceptions.
use cohort_switch.Prelude.{
  ℕ, ◌≡◌, refl, ◌≢◌, Bool, true, false, not, ◌||◌, Option, none, some, arith, String, Ordering,
  if◌then◌else◌,
}
use cohort_switch.Errors.{ok, err, type_error, ◌>>=◌}
use cohort_switch.Runtime.{Runtime}
use cohort_switch.Evaluation.Value.{Value, null, bool, str, is_container, contains}
use cohort_switch.Evaluation.Operators.{
  Operator, equals, not_equals, is_in, not_in, contains_op, starts_with_op, ends_with_op, exists,
  not_exists, greater_than, greater_or_equal, less_than, less_or_equal, semver_equal,
  semver_greater, semver_less, operator_of_name, run_operator, condition_matches, in_op, not_in_op,
  has_item_op, numeric_compare, to_float, Conversion, converted, refused, overflows,
  compare_converted, is_lt, is_gt, is_le, is_ge, equals_op, not_equals_op, starts_with_text,
  ends_with_text, is_present, semver_compare,
}

abbrev pub tests_absence : Operator → Bool
tests_absence not_exists = true
tests_absence _ = false

-- A condition on a missing attribute holds if its operator is `not_exists`, and fails if it is any other.
pub condition_matches-missing :
    (rt : Runtime) (name : String) (op : Operator) (expected : Value)
    → operator_of_name name ≡ some op
    → condition_matches rt name none expected ≡ ok (tests_absence op)
unfolding condition_matches run_operator in_op not_in_op has_item_op numeric_compare equals_op
    not_equals_op starts_with_text ends_with_text is_present semver_compare
condition_matches-missing rt name op expected e = rw (e, condition_matches) (missing op)
  where
    missing : (o : Operator) → run_operator rt o none expected ≡ ok (tests_absence o)
    missing equals = refl
    missing _ = refl

-- Operators that look at no container and convert no number.
abbrev pub is_plain : Operator → Bool
is_plain is_in = false
is_plain not_in = false
is_plain contains_op = false
is_plain greater_than = false
is_plain greater_or_equal = false
is_plain less_than = false
is_plain less_or_equal = false
is_plain _ = true

-- Those never raise.
pub run_operator-plain :
    (rt : Runtime) (op : Operator) (actual : Option Value) (expected : Value)
    → is_plain op ≡ true
    → (b : Bool) × (run_operator rt op actual expected ≡ ok b)
unfolding run_operator
run_operator-plain rt equals actual expected h = (equals_op rt actual expected, refl)
run_operator-plain rt not_equals actual expected h = (not_equals_op rt actual expected, refl)
run_operator-plain rt starts_with_op actual expected h = (starts_with_text actual expected, refl)
run_operator-plain rt ends_with_op actual expected h = (ends_with_text actual expected, refl)
run_operator-plain rt exists actual expected h = (is_present actual, refl)
run_operator-plain rt not_exists actual expected h = (not (is_present actual), refl)
run_operator-plain rt semver_equal actual expected h = (_, refl)
run_operator-plain rt semver_greater actual expected h = (_, refl)
run_operator-plain rt semver_less actual expected h = (_, refl)
run_operator-plain rt _ actual expected h = absurd (cc)

-- On a present attribute and a container, `not_in` answers the opposite of `in`, and raises where it does.
pub not_in-in :
    (rt : Runtime) (actual expected : Value)
    → is_container expected ≡ true
    → run_operator rt not_in (some actual) expected
      ≡ (run_operator rt is_in (some actual) expected >>= λ found. ok (not found))
unfolding run_operator in_op not_in_op
not_in-in rt actual expected h = rw h

abbrev pub is_text : Value → Bool
is_text (str s) = true
is_text _ = false

-- Looking for a value that is no text in a text raises TypeError, by each operator that looks.
pub text_holds_only_texts :
    (rt : Runtime) (text : String) (other : Value)
    → is_text other ≡ false
    → (condition_matches rt "in" (some other) (str text) ≡ err type_error)
      × (condition_matches rt "not_in" (some other) (str text) ≡ err type_error)
      × (condition_matches rt "contains" (some (str text)) other ≡ err type_error)
unfolding condition_matches operator_of_name run_operator in_op not_in_op has_item_op is_container
    contains
text_holds_only_texts rt text (str s) h = absurd (cc)
text_holds_only_texts rt text null h = (refl, refl, refl)
text_holds_only_texts rt text _ h = (refl, refl, refl)

abbrev pub is_numeric_operator : Operator → Bool
is_numeric_operator greater_than = true
is_numeric_operator greater_or_equal = true
is_numeric_operator less_than = true
is_numeric_operator less_or_equal = true
is_numeric_operator _ = false

numeric_compare-bool :
    (rt : Runtime) (v : Value) (b : Bool) (operation : Option Ordering → Bool)
    → (numeric_compare rt (some (bool b)) v operation ≡ ok false)
      × (numeric_compare rt (some v) (bool b) operation ≡ ok false)
unfolding numeric_compare
numeric_compare-bool rt null b operation = (refl, refl)
numeric_compare-bool rt _ b operation = (refl, refl)

-- A numeric comparison with a boolean on either side fails, and raises nothing.
pub numeric-bool :
    (rt : Runtime) (op : Operator) (b : Bool) (v : Value)
    → is_numeric_operator op ≡ true
    → (run_operator rt op (some (bool b)) v ≡ ok false)
      × (run_operator rt op (some v) (bool b) ≡ ok false)
unfolding run_operator
numeric-bool rt greater_than b v h = numeric_compare-bool rt v b _
numeric-bool rt greater_or_equal b v h = numeric_compare-bool rt v b _
numeric-bool rt less_than b v h = numeric_compare-bool rt v b _
numeric-bool rt less_or_equal b v h = numeric_compare-bool rt v b _
numeric-bool rt _ b v h = absurd (cc)

abbrev flip : Option Ordering → Option Ordering
flip (some Ordering.lt) = some Ordering.gt
flip (some Ordering.gt) = some Ordering.lt
flip o = o

-- Exchanging two floats exchanges less and greater.
abbrev pub ComparesBothWays : Runtime → Type 0
ComparesBothWays rt = (x y : ℕ) → rt.float_compare y x ≡ flip (rt.float_compare x y)

abbrev is_bool : Value → Bool
is_bool (bool b) = true
is_bool _ = false

numeric_compare-values :
    (rt : Runtime) (a b : Value) (operation : Option Ordering → Bool)
    → numeric_compare rt (some a) b operation ≡ (
        if is_bool a || is_bool b
        then ok false
        else compare_converted rt (to_float rt a) (to_float rt b) operation)
unfolding numeric_compare
numeric_compare-values rt (bool c) b operation = refl
numeric_compare-values rt null null operation = refl
numeric_compare-values rt _ (bool c) operation = refl
numeric_compare-values rt _ _ operation = refl

compare_converted-flip :
    (rt : Runtime) (x y : Conversion)
    → ComparesBothWays rt
    → x ≢ overflows
    → y ≢ overflows
    → (compare_converted rt x y is_gt ≡ compare_converted rt y x is_lt)
      × (compare_converted rt x y is_ge ≡ compare_converted rt y x is_le)
compare_converted-flip rt (converted x) (converted y) law nx ny = ground (arith, law x y)
compare_converted-flip rt overflows y law nx ny = absurd (nx refl)
compare_converted-flip rt refused overflows law nx ny = absurd (ny refl)
compare_converted-flip rt (converted x) overflows law nx ny = absurd (ny refl)
compare_converted-flip rt refused (converted y) law nx ny = (refl, refl)
compare_converted-flip rt refused refused law nx ny = (refl, refl)
compare_converted-flip rt (converted x) refused law nx ny = (refl, refl)

-- Where both values can be floats without overflow, `a > b` is `b < a` and `a >= b` is `b <= a`.
pub numeric_order :
    (rt : Runtime) (a b : Value)
    → ComparesBothWays rt
    → to_float rt a ≢ overflows
    → to_float rt b ≢ overflows
    → (run_operator rt greater_than (some a) b ≡ run_operator rt less_than (some b) a)
      × (run_operator rt greater_or_equal (some a) b ≡ run_operator rt less_or_equal (some b) a)
unfolding run_operator
numeric_order rt a b law na nb =
    let both = compare_converted-flip rt (to_float rt a) (to_float rt b) law na nb in
    rw
      (
        numeric_compare-values rt a b is_gt,
        numeric_compare-values rt b a is_lt,
        numeric_compare-values rt a b is_ge,
        numeric_compare-values rt b a is_le,
      )
      (ground (arith, both.0, both.1))
