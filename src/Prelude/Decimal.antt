-- ===== src/Prelude/Decimal.antt =====
-- Python's `str(n)` of a natural number.
use Prim.Native.Char.{Char, char, code}
use Prim.Native.Nat.{ℕ, zero, suc, ◌+◌, ◌-◌, ◌*◌, ◌/◌, ◌%◌, ◌≤◌, ◌<◌}
use Prim.Native.String.{String}
use mathlib.Core.List.{List, [], ◌∷◌}
use mathlib.Core.Path.{◌≡◌, refl, sym, ap, ◌∙◌}
use native.Mathlib.Omega.{arith}
use cohort_switch.Prelude.Tests.{ltb, if◌then◌else◌}
use cohort_switch.Prelude.Lists.{All}

abbrev digit : ℕ → Char
digit zero = char 48 tt
digit (suc zero) = char 49 tt
digit (suc (suc zero)) = char 50 tt
digit (suc (suc (suc zero))) = char 51 tt
digit (suc (suc (suc (suc zero)))) = char 52 tt
digit (suc (suc (suc (suc (suc zero))))) = char 53 tt
digit (suc (suc (suc (suc (suc (suc zero)))))) = char 54 tt
digit (suc (suc (suc (suc (suc (suc (suc zero))))))) = char 55 tt
digit (suc (suc (suc (suc (suc (suc (suc (suc zero)))))))) = char 56 tt
digit (suc (suc (suc (suc (suc (suc (suc (suc (suc n))))))))) = char 57 tt

-- the digits from the last to the first; a number `n` has at most `n` digits behind its first, so `n`
-- is fuel enough
digits : ℕ → ℕ → List ℕ
digits zero n = n ∷ []
digits (suc fuel) n = let rest = digits fuel (n / 10) in if ltb n 10 then n ∷ [] else n % 10 ∷ rest

text_of : List ℕ → String → String
text_of [] s = s
text_of (d ∷ ds) s = text_of ds (String.◌∷◌ (digit d) s)

-- `str(n)`
unfoldable pub decimal : ℕ → String
unfolding digits text_of
decimal n = text_of (digits n n) ""

read : String → ℕ → ℕ
read String.[] v = v
read (String.◌∷◌ c s) v = read s (10 * v + (code c - 48))

value : List ℕ → ℕ
value [] = 0
value (d ∷ ds) = d + 10 * value ds

value-digits : (fuel n : ℕ) → n ≤ fuel → value (digits fuel n) ≡ n
unfolding value digits
value-digits zero n le = omega arith
value-digits (suc fuel) n le = let rest = value-digits fuel (n / 10) (omega arith) in ground arith

digits_small : (fuel n : ℕ) → n ≤ fuel → All (λ d. d < 10) (digits fuel n)
unfolding digits
digits_small zero n le = (omega arith, tt)
digits_small (suc fuel) n le = let rest = digits_small fuel (n / 10) (omega arith) in ground arith

code-digit : (d : ℕ) → d < 10 → code (digit d) - 48 ≡ d
code-digit zero lt = refl
code-digit (suc zero) lt = refl
code-digit (suc (suc zero)) lt = refl
code-digit (suc (suc (suc zero))) lt = refl
code-digit (suc (suc (suc (suc zero)))) lt = refl
code-digit (suc (suc (suc (suc (suc zero))))) lt = refl
code-digit (suc (suc (suc (suc (suc (suc zero)))))) lt = refl
code-digit (suc (suc (suc (suc (suc (suc (suc zero))))))) lt = refl
code-digit (suc (suc (suc (suc (suc (suc (suc (suc zero)))))))) lt = refl
code-digit (suc (suc (suc (suc (suc (suc (suc (suc (suc zero))))))))) lt = refl
code-digit (suc (suc (suc (suc (suc (suc (suc (suc (suc (suc d)))))))))) lt = absurd (omega arith)

read-text_of :
    (ds : List ℕ) (s : String) → All (λ d. d < 10) ds → read (text_of ds s) 0 ≡ read s (value ds)
unfolding text_of read value
read-text_of [] s h = refl
read-text_of (d ∷ ds) s h =
    read-text_of ds (String.◌∷◌ (digit d) s) h.1
    ∙ ap (read s) (ap (λ k. 10 * value ds + k) (code-digit d h.0) ∙ omega arith)

-- Two numbers have two texts.
pub decimal-injective : (m n : ℕ) → decimal m ≡ decimal n → m ≡ n
unfolding decimal read
decimal-injective m n h = sym (back m) ∙ ap (λ s. read s 0) h ∙ back n
  where
    back : (k : ℕ) → read (decimal k) 0 ≡ k
    back k =
        read-text_of (digits k k) "" (digits_small k k (omega arith))
        ∙ value-digits k k (omega arith)
