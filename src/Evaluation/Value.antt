-- ===== src/Evaluation/Value.antt =====
-- The dynamic values of JSON payloads, with Python's `==` and `in` on them.
use cohort_switch.Prelude.{
  ℕ, suc, String, Option, none, some, Bool, true, false, ◌&&◌, ◌||◌, ◌==◌, if◌then◌else◌, str_eq,
  has_substring, Ordering,
}
use cohort_switch.Prelude.Int.{ℤ, pos, eq_ℤ}
use cohort_switch.Errors.{Result, ok, err, type_error}
use cohort_switch.Runtime.{Runtime}

mutual
  pub data Value : Type 0 where
    null : Value
    bool : Bool → Value
    int : ℤ → Value
    -- a float, as its 64-bit pattern
    float : ℕ → Value
    str : String → Value
    list : Items → Value
    dict : Fields → Value

  pub data Items : Type 0 where
    nil : Items
    cons : Value → Items → Items

  -- The entries of a dict; no two have one key.
  pub data Fields : Type 0 where
    end : Fields
    field : String → Value → Fields → Fields

unfoldable pub find : String → Fields → Option Value
find k end = none
find k (field j v fs) = if str_eq j k then some v else find k fs

unfoldable pub has_key : String → Fields → Bool
has_key k end = false
has_key k (field j v fs) = str_eq j k || has_key k fs

unfoldable pub count_fields : Fields → ℕ
count_fields end = 0
count_fields (field k v fs) = suc (count_fields fs)

-- A value that takes part in numeric equality; `True` is 1 and `False` is 0.
pub data Number : Type 0 where
  integer : ℤ → Number
  floating : ℕ → Number
  not_a_number : Number

unfoldable pub number : Value → Number
number (bool b) = integer (if b then pos 1 else pos 0)
number (int n) = integer n
number (float x) = floating x
number _ = not_a_number

module _ (rt : Runtime) where
  unfoldable pub eq_numbers : Number → Number → Bool
  eq_numbers (integer a) (integer b) = eq_ℤ a b
  eq_numbers (integer a) (floating y) = rt.int_float_eq a y
  eq_numbers (floating x) (integer b) = rt.int_float_eq b x
  eq_numbers (floating x) (floating y) = elim (rt.float_compare x y) [
    | none ↦ false
    | some o ↦ elim o [ Ordering.eq ↦ true | _ ↦ false ]
  ]
  eq_numbers _ _ = false

-- `a == b`
unfoldable mutual
  unfolding find count_fields number eq_numbers

  pub py_eq : Runtime → Value → Value → Bool
  py_eq rt null null = true
  py_eq rt (str a) (str b) = str_eq a b
  py_eq rt (list a) (list b) = eq_items rt a b
  py_eq rt (dict a) (dict b) = count_fields a == count_fields b && eq_fields rt a b
  py_eq rt a b = eq_numbers rt (number a) (number b)

  pub eq_items : Runtime → Items → Items → Bool
  eq_items rt nil nil = true
  eq_items rt (cons x xs) (cons y ys) = py_eq rt x y && eq_items rt xs ys
  eq_items rt _ _ = false

  pub eq_fields : Runtime → Fields → Fields → Bool
  eq_fields rt end fs = true
  eq_fields rt (field k v rest) fs =
      elim (find k fs) [ none ↦ false | some w ↦ py_eq rt v w ] && eq_fields rt rest fs

unfoldable pub contains_item : Runtime → Value → Items → Bool
contains_item rt v nil = false
contains_item rt v (cons x xs) = py_eq rt x v || contains_item rt v xs

-- `isinstance(v, Container)`
unfoldable pub is_container : Value → Bool
is_container (str s) = true
is_container (list xs) = true
is_container (dict fs) = true
is_container _ = false

-- `v in c`: a text holds only texts, and a list or dict has no hash to be looked up by.
unfoldable pub contains : Runtime → Value → Value → Result Bool
unfolding contains_item has_key
contains rt (str s) (str t) = ok (has_substring s t)
contains rt (str s) v = err type_error
contains rt (list xs) v = ok (contains_item rt v xs)
contains rt (dict fs) (list xs) = err type_error
contains rt (dict fs) (dict gs) = err type_error
contains rt (dict fs) (str t) = ok (has_key t fs)
contains rt (dict fs) v = ok false
contains rt c v = err type_error
