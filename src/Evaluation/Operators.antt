-- ===== src/Evaluation/Operators.antt =====
-- backend/app/evaluation/operators.py. An attribute that is `none` is MISSING.
pub mod Laws
use cohort_switch.Prelude.{
  ℕ, String, Option, none, some, Bool, true, false, not, if◌then◌else◌, str_eq, starts_with,
  ends_with, Ordering,
}
use cohort_switch.Prelude.Int.{pos}
use cohort_switch.Errors.{Result, ok, err, value_error, overflow_error, ◌>>=◌}
use cohort_switch.Runtime.{Runtime}
use cohort_switch.Evaluation.Value.{Value, bool, int, float, str, py_eq, is_container, contains}

-- The keys of OPERATORS.
pub data Operator : Type 0 where
  equals not_equals is_in not_in contains_op starts_with_op ends_with_op exists not_exists :
      Operator
  greater_than greater_or_equal less_than less_or_equal : Operator
  semver_equal semver_greater semver_less : Operator

unfoldable pub operator_of_name : String → Option Operator
operator_of_name s =
    if str_eq s "equals"
    then some equals
    else if str_eq s "not_equals"
    then some not_equals
    else if str_eq s "in"
    then some is_in
    else if str_eq s "not_in"
    then some not_in
    else if str_eq s "contains"
    then some contains_op
    else if str_eq s "starts_with"
    then some starts_with_op
    else if str_eq s "ends_with"
    then some ends_with_op
    else if str_eq s "exists"
    then some exists
    else if str_eq s "not_exists"
    then some not_exists
    else if str_eq s "greater_than"
    then some greater_than
    else if str_eq s "greater_or_equal"
    then some greater_or_equal
    else if str_eq s "less_than"
    then some less_than
    else if str_eq s "less_or_equal"
    then some less_or_equal
    else if str_eq s "semver_equal"
    then some semver_equal
    else if str_eq s "semver_greater"
    then some semver_greater
    else if str_eq s "semver_less"
    then some semver_less
    else none

-- Python's `<`, `<=`, `>`, `>=` and `==` on what a comparison gives; unordered values satisfy none.
abbrev pub is_lt : Option Ordering → Bool
is_lt (some Ordering.lt) = true
is_lt _ = false

abbrev pub is_le : Option Ordering → Bool
is_le (some Ordering.lt) = true
is_le (some Ordering.eq) = true
is_le _ = false

abbrev pub is_gt : Option Ordering → Bool
is_gt (some Ordering.gt) = true
is_gt _ = false

abbrev pub is_ge : Option Ordering → Bool
is_ge (some Ordering.gt) = true
is_ge (some Ordering.eq) = true
is_ge _ = false

abbrev pub is_eq : Option Ordering → Bool
is_eq (some Ordering.eq) = true
is_eq _ = false

-- What `float(v)` does: a float, a TypeError or ValueError (`refused`), or an OverflowError.
pub data Conversion : Type 0 where
  converted : ℕ → Conversion
  refused overflows : Conversion

abbrev pub from_int : Option ℕ → Conversion
from_int none = overflows
from_int (some x) = converted x

abbrev pub from_str : Option ℕ → Conversion
from_str none = refused
from_str (some x) = converted x

module _ (rt : Runtime) where
  unfoldable pub to_float : Value → Conversion
  to_float (int n) = from_int (rt.float_of_int n)
  to_float (float x) = converted x
  to_float (str s) = from_str (rt.float_of_str s)
  to_float (bool b) = from_int (rt.float_of_int (if b then pos 1 else pos 0))
  to_float _ = refused

  unfoldable pub equals_op : Option Value → Value → Bool
  equals_op none expected = false
  equals_op (some actual) expected = py_eq rt actual expected

  unfoldable pub not_equals_op : Option Value → Value → Bool
  not_equals_op none expected = false
  not_equals_op (some actual) expected = not (py_eq rt actual expected)

  -- `isinstance(c, Container) and v in c`
  unfoldable pub in_op : Option Value → Value → Result Bool
  in_op none expected = ok false
  in_op (some actual) expected =
      if is_container expected then contains rt expected actual else ok false

  unfoldable pub not_in_op : Option Value → Value → Result Bool
  not_in_op none expected = ok false
  not_in_op (some actual) expected =
      if is_container expected
      then (do found ← contains rt expected actual; ok (not found))
      else ok false

  unfoldable pub has_item_op : Option Value → Value → Result Bool
  has_item_op none expected = ok false
  has_item_op (some actual) expected =
      if is_container actual then contains rt actual expected else ok false

  abbrev pub compare_converted : Conversion → Conversion → (Option Ordering → Bool) → Result Bool
  compare_converted (converted x) (converted y) operation = ok (operation (rt.float_compare x y))
  compare_converted refused _ operation = ok false
  compare_converted overflows _ operation = err overflow_error
  compare_converted (converted x) refused operation = ok false
  compare_converted (converted x) overflows operation = err overflow_error

  unfoldable pub numeric_compare : Option Value → Value → (Option Ordering → Bool) → Result Bool
  unfolding to_float
  numeric_compare none expected operation = ok false
  numeric_compare (some (bool b)) expected operation = ok false
  numeric_compare (some actual) (bool c) operation = ok false
  numeric_compare (some actual) expected operation =
      compare_converted (to_float actual) (to_float expected) operation

  unfoldable pub semver_compare : Option Value → Value → (Option Ordering → Bool) → Bool
  semver_compare (some (str a)) (str b) operation = operation (rt.version_compare a b)
  semver_compare _ _ operation = false

unfoldable pub starts_with_text : Option Value → Value → Bool
starts_with_text (some (str s)) (str t) = starts_with s t
starts_with_text _ _ = false

unfoldable pub ends_with_text : Option Value → Value → Bool
ends_with_text (some (str s)) (str t) = ends_with s t
ends_with_text _ _ = false

unfoldable pub is_present : Option Value → Bool
is_present none = false
is_present (some v) = true

-- The functions of OPERATORS, by their keys.
unfoldable pub run_operator : Runtime → Operator → Option Value → Value → Result Bool
run_operator rt equals a e = ok (equals_op rt a e)
run_operator rt not_equals a e = ok (not_equals_op rt a e)
run_operator rt is_in a e = in_op rt a e
run_operator rt not_in a e = not_in_op rt a e
run_operator rt contains_op a e = has_item_op rt a e
run_operator rt starts_with_op a e = ok (starts_with_text a e)
run_operator rt ends_with_op a e = ok (ends_with_text a e)
run_operator rt exists a e = ok (is_present a)
run_operator rt not_exists a e = ok (not (is_present a))
run_operator rt greater_than a e = numeric_compare rt a e is_gt
run_operator rt greater_or_equal a e = numeric_compare rt a e is_ge
run_operator rt less_than a e = numeric_compare rt a e is_lt
run_operator rt less_or_equal a e = numeric_compare rt a e is_le
run_operator rt semver_equal a e = ok (semver_compare rt a e is_eq)
run_operator rt semver_greater a e = ok (semver_compare rt a e is_gt)
run_operator rt semver_less a e = ok (semver_compare rt a e is_lt)

unfoldable pub condition_matches : Runtime → String → Option Value → Value → Result Bool
condition_matches rt operator actual expected = elim (operator_of_name operator) [
  | none ↦ err value_error
  | some operation ↦ run_operator rt operation actual expected
]
