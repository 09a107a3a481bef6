-- ===== src/Prelude/Decimal.antt =====
-- Decimal numerals, `str(n)` and the format `{n:06d}`, and that different numbers print differently.
use Prim.Native.Nat.{ℕ, zero, suc, ◌+◌, ◌-◌, ◌*◌, ◌/◌, ◌%◌, ◌<◌}
use mathlib.Core.Path.{◌≡◌, refl, ap, sym, ◌∙◌}
use mathlib.Core.Bool.{false}
use mathlib.Core.Logic.{inl, inr}
use mathlib.Core.List.{[], ◌∷◌, ◌++◌}
use native.Mathlib.Omega.{arith}
use rnde_m.Prelude.Tests.{ltb, if◌then◌else◌, Bool-cases}
use rnde_m.Prelude.Lists.{length}
use rnde_m.Prelude.Texts.{Text, IsUnspaced, is_space}

-- One digit for each round; `suc n` rounds are enough for `n`.
unfoldable pub digits : ℕ → ℕ → Text → Text
digits zero n rest = rest
digits (suc fuel) n rest =
    let here = (48 + n % 10) ∷ rest in
    let more = digits fuel (n / 10) here in if ltb n 10 then here else more

unfoldable pub decimal : ℕ → Text
unfolding digits
decimal n = digits (suc n) n []

unfoldable pub zeros : ℕ → Text → Text
zeros zero s = s
zeros (suc n) s = 48 ∷ zeros n s

-- `{n:06d}`
unfoldable pub decimal06 : ℕ → Text
unfolding zeros decimal
decimal06 n = zeros (6 - length (decimal n)) (decimal n)

-- The number that a text of digits denotes, from the digits before it.
abbrev pub value_from : ℕ → Text → ℕ
value_from acc [] = acc
value_from acc (c ∷ s) = value_from (acc * 10 + (c - 48)) s

value_from-digits :
    (fuel n : ℕ) (rest : Text) → n < fuel → value_from 0 (digits fuel n rest) ≡ value_from n rest
unfolding digits
value_from-digits zero n rest h = elim h [ ]
value_from-digits (suc fuel) n rest h = elim (Bool-cases (ltb n 10)) [
  | inl small ↦ rw small (ap (λ k. value_from k rest) (ground arith))
  | inr large ↦ rw large (
      value_from-digits fuel (n / 10) ((48 + n % 10) ∷ rest) (ground arith)
      ∙ ap (λ k. value_from k rest) (omega arith))
]

pub value_from-zeros : (n : ℕ) (s : Text) → value_from 0 (zeros n s) ≡ value_from 0 s
unfolding zeros
value_from-zeros zero s = refl
value_from-zeros (suc n) s = value_from-zeros n s

pub value_from-decimal : (n : ℕ) → value_from 0 (decimal n) ≡ n
unfolding decimal
value_from-decimal n = value_from-digits (suc n) n [] (omega arith)

pub value_from-decimal06 : (n : ℕ) → value_from 0 (decimal06 n) ≡ n
unfolding decimal06
value_from-decimal06 n =
    value_from-zeros (6 - length (decimal n)) (decimal n) ∙ value_from-decimal n

pub decimal06-injective : (m n : ℕ) → decimal06 m ≡ decimal06 n → m ≡ n
decimal06-injective m n e =
    sym (value_from-decimal06 m) ∙ ap (value_from 0) e ∙ value_from-decimal06 n

-- A common prefix can be taken off.
pub prefix-injective : (p s t : Text) → p ++ s ≡ p ++ t → s ≡ t
prefix-injective [] s t e = e
prefix-injective (c ∷ p) s t e = prefix-injective p s t (cc)

digit_visible : (n : ℕ) → is_space (48 + n % 10) ≡ false
unfolding is_space
digit_visible n = ground arith

digits-IsUnspaced : (fuel n : ℕ) (rest : Text) → IsUnspaced rest → IsUnspaced (digits fuel n rest)
unfolding digits is_space
digits-IsUnspaced zero n rest h = h
digits-IsUnspaced (suc fuel) n rest h = elim (Bool-cases (ltb n 10)) [
  | inl small ↦ rw small (digit_visible n, h)
  | inr large ↦
      rw large (digits-IsUnspaced fuel (n / 10) ((48 + n % 10) ∷ rest) (digit_visible n, h))
]

zeros-IsUnspaced : (n : ℕ) (s : Text) → IsUnspaced s → IsUnspaced (zeros n s)
unfolding zeros is_space
zeros-IsUnspaced zero s h = h
zeros-IsUnspaced (suc n) s h = (refl, zeros-IsUnspaced n s h)

-- A numeral has no spaces, with zeros before it or not.
pub padded-IsUnspaced : (k n : ℕ) → IsUnspaced (zeros k (decimal n))
unfolding decimal
padded-IsUnspaced k n = zeros-IsUnspaced k (decimal n) (digits-IsUnspaced (suc n) n [] tt)
