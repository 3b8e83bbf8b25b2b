-- ===== src/Prelude/Text.antt =====
-- Python `str`: equality, and the tests on substrings, over the code points of a text.
use Prim.Native.Nat.{ℕ}
use Prim.Native.Char.{code}
use Prim.Native.String.{String}
use mathlib.Core.Bool.{Bool, true, false, ◌&&◌, ◌||◌}
use mathlib.Core.List.{List, [], ◌∷◌, reverse}
use mathlib.Core.Logic.{inl, inr}
use mathlib.Core.Option.{Option, none, some}
pub use text.Mathlib.Text.{◌==◌ as str_eq}
pub use text.Mathlib.TextEquality.{eq_iff}
pub use text.Mathlib.TextPositions.{eq_refl}
use mathlib.Core.Path.{◌≡◌, sym}
use cohort_switch.Prelude.Lists.{IsIn}
use cohort_switch.Prelude.Tests.{◌==◌, if◌then◌else◌, Bool-cases}

-- The code points of a text.
abbrev pub codes : String → List ℕ
codes String.[] = []
codes (String.◌∷◌ c s) = code c ∷ codes s

pub is_prefix : List ℕ → List ℕ → Bool
is_prefix [] s = true
is_prefix (a ∷ t) [] = false
is_prefix (a ∷ t) (b ∷ s) = a == b && is_prefix t s

pub is_infix : List ℕ → List ℕ → Bool
unfolding is_prefix
is_infix t [] = is_prefix t []
is_infix t (b ∷ s) = is_prefix t (b ∷ s) || is_infix t s

-- `s.startswith(t)`
unfoldable pub starts_with : String → String → Bool
unfolding is_prefix
starts_with s t = is_prefix (codes t) (codes s)

-- `s.endswith(t)`
unfoldable pub ends_with : String → String → Bool
unfolding is_prefix
ends_with s t = is_prefix (reverse (codes t)) (reverse (codes s))

-- `t in s`
unfoldable pub has_substring : String → String → Bool
unfolding is_infix
has_substring s t = is_infix (codes t) (codes s)

-- `t in xs`, for a list or a set of texts
abbrev pub elem : String → List String → Bool
elem t [] = false
elem t (x ∷ xs) = str_eq x t || elem t xs

-- `d.get(k)` and `d[k]` on a dict with text keys
abbrev pub lookup {ℓ} : {V : Type ℓ} → String → List (String × V) → Option V
lookup k [] = none
lookup k ((j, v) ∷ d) = if str_eq j k then some v else lookup k d

abbrev pub keys {ℓ} : {V : Type ℓ} → List (String × V) → List String
keys [] = []
keys ((j, v) ∷ d) = j ∷ keys d

-- A key that stands in a dict has a value there.
pub lookup_of_elem {ℓ} :
    {V : Type ℓ} (k : String) (d : List (String × V))
    → elem k (keys d) ≡ true
    → (v : V) × (lookup k d ≡ some v)
lookup_of_elem k [] h = absurd (cc)
lookup_of_elem k ((j, v) ∷ d) h = elim (Bool-cases (str_eq j k)) [
  | inl found ↦ (v, rw found)
  | inr other ↦ rw other (lookup_of_elem k d (rw other at h))
]

pub elem→IsIn : (t : String) (xs : List String) → elem t xs ≡ true → IsIn t xs
elem→IsIn t [] h = absurd (cc)
elem→IsIn t (x ∷ xs) h = elim (Bool-cases (str_eq x t)) [
  | inl same ↦ inl (sym ((eq_iff x t).0 same))
  | inr other ↦ inr (elem→IsIn t xs (rw other at h))
]
