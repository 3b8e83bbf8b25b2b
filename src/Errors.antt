-- ===== src/Errors.antt =====
-- backend/app/core/errors.py, and the results of code that may raise.
use cohort_switch.Prelude.{ℕ, String, Option, List, ◌≡◌, refl, subst, Bool, true, false}

-- The `details` that the source attaches to an `APIError`.
pub data Details : Type 0 where
  no_details : Details
  current_version : Option ℕ → Details
  flags : List String → Details

-- What a request may raise: an `APIError`, the database's `IntegrityError`, or an exception that
-- no handler of its own catches.
pub data Error : Type 0 where
  api_error : ℕ → String → String → Details → Error
  integrity_error : Error
  value_error : Error
  type_error : Error
  key_error : Error
  overflow_error : Error

-- The outcome of a call: an exception, or the value that it returned.
pub data Result {ℓ} (V : Type ℓ) : Type ℓ where
  err : Error → Result V
  ok : V → Result V

infixl 5 ◌>>=◌
abbrev pub ◌>>=◌ {ℓ κ} : {V : Type ℓ} {W : Type κ} → Result V → (V → Result W) → Result W
err raised >>= next = err raised
ok returned >>= next = next returned

infixl 5 ◌>>◌
abbrev pub ◌>>◌ {ℓ} : {W : Type ℓ} → Result (Unit {0}) → Result W → Result W
first >> second = first >>= λ _. second

-- `if b: raise e`
abbrev pub raise_if : Bool → Error → Result (Unit {0})
raise_if true e = err e
raise_if false e = ok tt

-- `raise APIError(status, code, message)`
abbrev pub api : ℕ → String → String → Error
api status code message = api_error status code message no_details

-- A ValueError handler that turns it into another error: `except ValueError as exc: raise e`
abbrev pub except_value_error {ℓ} : {A : Type ℓ} → Result A → Error → Result A
except_value_error (err value_error) e = err e
except_value_error r e = r

-- The status and code of the response that the exception handlers build.
unfoldable pub handle_error : Error → ℕ × String
handle_error (api_error status code message _) = (status, code)
handle_error integrity_error = (409, "resource_conflict")
handle_error _ = (500, "internal_error")

-- A chain that returns went through its first call.
pub >>=-eq-ok {ℓ κ} :
    {V : Type ℓ} {W : Type κ} (first : Result V) (next : V → Result W) {w : W}
    → (first >>= next) ≡ ok w
    → (v : V) × (first ≡ ok v) × (next v ≡ ok w)
>>=-eq-ok (err raised) next h = absurd (cc)
>>=-eq-ok (ok v) next h = (v, refl, h)

pub raise_if-eq-ok : (b : Bool) (e : Error) {u : Unit {0}} → raise_if b e ≡ ok u → b ≡ false
raise_if-eq-ok true e h = absurd (cc)
raise_if-eq-ok false e h = refl

-- If the call returns, its value satisfies `P`.
abbrev pub Ensures {ℓ κ} : {V : Type ℓ} → (V → Type κ) → Result V → Type κ
Ensures P (err raised) = Unit
Ensures P (ok v) = P v

-- The call raises.
abbrev pub Raises {ℓ} : {V : Type ℓ} → Result V → Type 0
Raises = Ensures (λ v. ⊥)

pub Ensures->>= {ℓ ℓ' κ} :
    {V : Type ℓ} {W : Type ℓ'} (P : W → Type κ) (first : Result V) (next : V → Result W)
    → ((v : V) → first ≡ ok v → Ensures P (next v))
    → Ensures P (first >>= next)
Ensures->>= P (err raised) next h = tt
Ensures->>= P (ok v) next h = h v refl

pub Ensures-at {ℓ κ} :
    {V : Type ℓ} (P : V → Type κ) (outcome : Result V) {v : V}
    → outcome ≡ ok v
    → Ensures P outcome
    → P v
Ensures-at P outcome e h = subst (Ensures P) e h

pub Ensures-raise_if {ℓ κ} :
    {W : Type ℓ} (P : W → Type κ) (b : Bool) (e : Error) (second : Result W)
    → (b ≡ false → Ensures P second)
    → Ensures P (raise_if b e >> second)
Ensures-raise_if P true e second h = tt
Ensures-raise_if P false e second h = h refl

pub ok-injective {ℓ} : {V : Type ℓ} {v w : V} → ok v ≡ ok w → v ≡ w
ok-injective h = cc
