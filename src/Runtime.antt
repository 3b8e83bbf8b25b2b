-- ===== src/Runtime.antt =====
-- What the program takes from code outside the repository, as one parameter: CPython's floats
-- (a float is its 64-bit pattern), `packaging.version`, `hashlib.blake2b` and the texts of UUIDs.
use cohort_switch.Prelude.{ℕ, String, Option, List, Bool, Ordering}
use cohort_switch.Prelude.Int.{ℤ}

pub record Runtime : Type 0 where
  -- `float(n)`; `none` is OverflowError
  pub float_of_int : ℤ → Option ℕ
  -- `float(s)`; `none` is ValueError
  pub float_of_str : String → Option ℕ
  -- how two floats compare; `none` where one is NaN
  pub float_compare : ℕ → ℕ → Option Ordering
  -- `n == x`, for an int and a float
  pub int_float_eq : ℤ → ℕ → Bool
  -- how `Version(a)` and `Version(b)` compare; `none` where either raises InvalidVersion
  pub version_compare : String → String → Option Ordering
  -- `hashlib.blake2b(message, digest_size=16, person=b"cohort-switch").digest()`, as bytes
  pub blake2b : List ℕ → List ℕ
  -- `str(id)` of a UUID
  pub uuid_str : ℕ → String
