-- ===== src/Prelude/Results.antt =====
-- Exceptions as values: a call returns, or raises an exception with its message.
use Prim.Native.Nat.{ℕ}
use Prim.Native.String.{String}
use mathlib.Core.Path.{◌≡◌, refl}
use mathlib.Core.Bool.{Bool, true, false}
use mathlib.Core.Logic.{◌⊎◌, inl, inr}
use mathlib.Core.List.{List}
use rnde_m.Prelude.Ints.{ℤ, pos, negsuc}

-- `KeyError` carries the missing key, a text.
pub data Error : Type 0 where
  type_error value_error index_error overflow_error : String → Error
  zero_division_error assertion_error : Error
  key_error : List ℕ → Error

pub data Result {ℓ} (A : Type ℓ) : Type ℓ where
  ok : A → Result A
  raised : Error → Result A

-- A check that returns nothing.
abbrev pub Checked : Type 0
Checked = Result {0} (Unit {0})

infixl 5 ◌>>◌ ◌>>=◌
-- What follows a call is run on its result, unless the call raised.
abbrev pub ◌>>=◌ {ℓ κ} : {A : Type ℓ} {B : Type κ} → Result A → (A → Result B) → Result B
◌>>=◌ (raised e) next = raised e
◌>>=◌ (ok result) next = next result

abbrev pub ◌>>◌ {ℓ} : {B : Type ℓ} → Checked → Result B → Result B
◌>>◌ check next = check >>= λ _. next

-- `if test: raise ValueError(message)`
abbrev pub raise_if : Bool → String → Checked
raise_if true message = raised (value_error message)
raise_if false message = ok tt

-- `if value < 0: raise ValueError(message)`
abbrev pub non_negative : ℤ → String → Result ℕ
non_negative (pos n) message = ok n
non_negative (negsuc n) message = raised (value_error message)

-- `except (TypeError, ValueError)`: what the handler makes of it, or the exception goes on.
abbrev pub rescue {ℓ} : {A : Type ℓ} → (Error → Result A) → Error → Result A
rescue handler (type_error m) = handler (type_error m)
rescue handler (value_error m) = handler (value_error m)
rescue handler (index_error m) = raised (index_error m)
rescue handler (overflow_error m) = raised (overflow_error m)
rescue handler zero_division_error = raised zero_division_error
rescue handler assertion_error = raised assertion_error
rescue handler (key_error k) = raised (key_error k)

-- The call returned and did not raise.
abbrev pub accepts {ℓ} : {A : Type ℓ} → Result A → Bool
accepts (ok a) = true
accepts (raised e) = false

pub Result-cases {ℓ} :
    {A : Type ℓ} (r : Result A) → ((e : Error) × (r ≡ raised e)) ⊎ ((a : A) × (r ≡ ok a))
Result-cases (ok a) = inr (a, refl)
Result-cases (raised e) = inl (e, refl)
