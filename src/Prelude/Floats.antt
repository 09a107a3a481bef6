-- ===== src/Prelude/Floats.antt =====
-- Python's `float`: the type and its operations are a parameter, with the laws of IEEE 754
-- comparison and correctly rounded arithmetic that the results rely on. NaN is not excluded.
use Prim.Native.Nat.{ℕ}
use mathlib.Core.Path.{◌≡◌}
use mathlib.Core.Bool.{Bool, true, false}
use mathlib.Core.List.{List}
use mathlib.Core.Option.{Option}
use rnde_m.Prelude.Ints.{ℤ}
use native.Mathlib.Omega.{arith}
use rnde_m.Prelude.Tests.{if◌then◌else◌}

pub record Floats : Type 1 where
  pub Float : Type 0
  pub zero_f : Float
  pub one_f : Float
  -- the literals 0.01, 0.03, 0.85, 0.92, -1.0, 2.0, 1e-12 and -1e-12
  pub hundredth_f : Float
  pub three_hundredths_f : Float
  pub eighty_five_hundredths_f : Float
  pub ninety_two_hundredths_f : Float
  pub neg_one_f : Float
  pub two_f : Float
  pub tiny_f : Float
  pub neg_tiny_f : Float
  -- `a == b`, `a < b`, `a <= b`, `math.isfinite(a)`
  pub eq_f : Float → Float → Bool
  pub lt_f : Float → Float → Bool
  pub le_f : Float → Float → Bool
  pub is_finite : Float → Bool
  pub add_f : Float → Float → Float
  pub sub_f : Float → Float → Float
  pub mul_f : Float → Float → Float
  pub div_f : Float → Float → Float
  pub abs_f : Float → Float
  -- `float(n)` of a non-negative int
  pub from_int : ℕ → Float
  -- `float(n)` of any int, and nothing where it raises OverflowError
  pub float_of : ℤ → Option Float
  -- the builtin `sum` of floats, whose rounding depends on the version of Python
  pub sum_f : List Float → Float
  -- a comparison that holds strictly holds weakly
  pub lt-le : (a b : Float) → lt_f a b ≡ true → le_f a b ≡ true
  pub zero-le-zero : le_f zero_f zero_f ≡ true
  pub one-le-one : le_f one_f one_f ≡ true
  pub zero-le-one : le_f zero_f one_f ≡ true
  -- a finite number equals itself
  pub eq-refl : (a : Float) → is_finite a ≡ true → eq_f a a ≡ true
  pub finite-zero : is_finite zero_f ≡ true
  pub finite-one : is_finite one_f ≡ true
  pub lt-irrefl : (a : Float) → lt_f a a ≡ false
  pub one-lt-zero : lt_f one_f zero_f ≡ false
  -- the difference of two finite numbers of the unit interval is finite and between -1 and 1
  pub sub_unit :
      (a b : Float)
      → is_finite a ≡ true
      → is_finite b ≡ true
      → lt_f a zero_f ≡ false
      → lt_f one_f a ≡ false
      → lt_f b zero_f ≡ false
      → lt_f one_f b ≡ false
      → (is_finite (sub_f a b) ≡ true)
        × (lt_f (sub_f a b) neg_one_f ≡ false)
        × (lt_f one_f (sub_f a b) ≡ false)
  -- a difference and its negative have one absolute value
  pub abs-sub_comm : (a b : Float) → abs_f (sub_f a b) ≡ abs_f (sub_f b a)

module _ (F : Floats) where
  open F use {Float, zero_f, one_f, lt_f, le_f, lt-le, zero-le-zero, one-le-one, zero-le-one}

  -- The builtins `min(a, b)` and `max(a, b)`: the first stays unless the second beats it.
  abbrev pub min_f : Float → Float → Float
  min_f a b = if lt_f b a then b else a

  abbrev pub max_f : Float → Float → Float
  max_f a b = if lt_f a b then b else a

  -- `max(0.0, min(1.0, value))`
  unfoldable pub clamp : Float → Float
  clamp value = max_f zero_f (min_f one_f value)

  -- A clamped value lies in the unit interval, whatever it was, NaN included.
  pub clamp_bounds :
      (value : Float) → (le_f zero_f (clamp value) ≡ true) × (le_f (clamp value) one_f ≡ true)
  unfolding clamp
  clamp_bounds value = ground (
    arith,
    lt-le value one_f,
    lt-le zero_f value,
    lt-le zero_f one_f,
    zero-le-zero,
    one-le-one,
    zero-le-one,
  )
