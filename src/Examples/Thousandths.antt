-- ===== src/Examples/Thousandths.antt =====
-- A `Floats` of signed thousandths, which shows that the laws can hold and lets examples compute.
use rnde_m.Prelude.{
  ℕ, suc, Option, none, some, List, [], ◌∷◌, ◌+◌, ◌-◌, ◌*◌, ◌/◌, ◌≡◌, refl, Bool, true, false,
  arith, ltb, leb, ◌==◌, if◌then◌else◌, ℤ, pos, negsuc,
}
use rnde_m.Prelude.Floats.{Floats}

abbrev pub pos_part : ℤ → ℕ
pos_part (pos n) = n
pos_part (negsuc n) = 0

abbrev pub neg_part : ℤ → ℕ
neg_part (pos n) = 0
neg_part (negsuc n) = suc n

abbrev pub sub_ℕ : ℕ → ℕ → ℤ
sub_ℕ a b = if leb b a then pos (a - b) else negsuc (b - a - 1)

abbrev pub eq_ℤ : ℤ → ℤ → Bool
eq_ℤ a b = pos_part a + neg_part b == pos_part b + neg_part a

abbrev pub lt_ℤ : ℤ → ℤ → Bool
lt_ℤ a b = ltb (pos_part a + neg_part b) (pos_part b + neg_part a)

abbrev pub le_ℤ : ℤ → ℤ → Bool
le_ℤ a b = leb (pos_part a + neg_part b) (pos_part b + neg_part a)

abbrev pub add_ℤ : ℤ → ℤ → ℤ
add_ℤ a b = sub_ℕ (pos_part a + pos_part b) (neg_part a + neg_part b)

abbrev pub sub_ℤ : ℤ → ℤ → ℤ
sub_ℤ a b = sub_ℕ (pos_part a + neg_part b) (neg_part a + pos_part b)

abbrev pub abs_ℤ : ℤ → ℤ
abs_ℤ a = pos (pos_part a + neg_part a)

abbrev pub mul_ℤ : ℤ → ℤ → ℤ
mul_ℤ a b =
    sub_ℕ ((pos_part a * pos_part b + neg_part a * neg_part b) / 1000)
      ((pos_part a * neg_part b + neg_part a * pos_part b) / 1000)

abbrev pub div_ℤ : ℤ → ℤ → ℤ
div_ℤ a (pos n) = sub_ℕ (pos_part a * 1000 / n) (neg_part a * 1000 / n)
div_ℤ a (negsuc n) = sub_ℕ (neg_part a * 1000 / suc n) (pos_part a * 1000 / suc n)

-- Of up to a million, above which there is no float here.
abbrev pub float_ℤ : ℤ → Option ℤ
float_ℤ a = if leb (pos_part a + neg_part a) 1000000 then some (mul_ℤ a (pos 1000000)) else none

abbrev pub sum_ℤ : List ℤ → ℤ
sum_ℤ [] = pos 0
sum_ℤ (a ∷ rest) = add_ℤ a (sum_ℤ rest)

pub abs_sub_comm : (a b : ℤ) → abs_ℤ (sub_ℤ a b) ≡ abs_ℤ (sub_ℤ b a)
abs_sub_comm a b = ground arith

pub lt_le : (a b : ℤ) → lt_ℤ a b ≡ true → le_ℤ a b ≡ true
lt_le a b h = ground arith

pub eq_refl : (a : ℤ) → eq_ℤ a a ≡ true
eq_refl a = ground arith

pub lt_irrefl : (a : ℤ) → lt_ℤ a a ≡ false
lt_irrefl a = ground arith

pub sub_unit_interval :
    (a b : ℤ)
    → true ≡ true
    → true ≡ true
    → lt_ℤ a (pos 0) ≡ false
    → lt_ℤ (pos 1000) a ≡ false
    → lt_ℤ b (pos 0) ≡ false
    → lt_ℤ (pos 1000) b ≡ false
    → (true ≡ true)
      × (lt_ℤ (sub_ℤ a b) (negsuc 999) ≡ false)
      × (lt_ℤ (pos 1000) (sub_ℤ a b) ≡ false)
sub_unit_interval a b _ _ al ah bl bh = (refl, ground arith, ground arith)

abbrev pub thousandths : Floats
thousandths = record {
  Float = ℤ;
  zero_f = pos 0;
  one_f = pos 1000;
  hundredth_f = pos 10;
  three_hundredths_f = pos 30;
  eighty_five_hundredths_f = pos 850;
  ninety_two_hundredths_f = pos 920;
  neg_one_f = negsuc 999;
  two_f = pos 2000;
  tiny_f = pos 0;
  neg_tiny_f = pos 0;
  eq_f = eq_ℤ;
  lt_f = lt_ℤ;
  le_f = le_ℤ;
  is_finite = λ a. true;
  add_f = add_ℤ;
  sub_f = sub_ℤ;
  mul_f = mul_ℤ;
  div_f = div_ℤ;
  abs_f = abs_ℤ;
  from_int = λ n. pos (n * 1000);
  float_of = float_ℤ;
  sum_f = sum_ℤ;
  lt-le = lt_le;
  zero-le-zero = refl;
  one-le-one = refl;
  zero-le-one = refl;
  eq-refl = λ a h. eq_refl a;
  finite-zero = refl;
  finite-one = refl;
  lt-irrefl = lt_irrefl;
  one-lt-zero = refl;
  sub_unit = sub_unit_interval;
  abs-sub_comm = abs_sub_comm;
}
