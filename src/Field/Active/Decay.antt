-- ===== src/Field/Active/Decay.antt =====
-- The decay of the active context field (clc/field/active_context_field.py).
use rnde_m.Prelude.{ℕ, ◌≡◌, refl, Option, none, some, [], ◌∷◌, arith, Text, ◌-◌}
use rnde_m.Prelude.Floats.{Floats}
use rnde_m.Field.Active.{ActivePattern, Patterns, decayed, keep, decay_all}

module _ (F : Floats) where
  open F use {Float}

  decayed-decayed :
      (tick : ℕ) (q p : ActivePattern Float) → decayed F tick q ≡ some p → decayed F tick p ≡ some p
  unfolding decayed
  decayed-decayed tick q p e =
      let settled : tick - tick ≡ 0 = omega arith in ground (arith, settled)

  decay_all-keep :
      (tick : ℕ) (id : Text) (q : ActivePattern Float) (o : Option (ActivePattern Float))
      (s : Patterns Float)
      → decayed F tick q ≡ o
      → decay_all F tick (keep F id o s) ≡ keep F id o (decay_all F tick s)
  unfolding decay_all
  decay_all-keep tick id q none s e = refl
  decay_all-keep tick id q (some p) s e = rw (decayed-decayed tick q p e) refl

  -- A second decay at the same tick changes nothing: no pattern loses activation twice, or is
  -- dropped by it.
  pub decay_all-decay_all :
      (tick : ℕ) (s : Patterns Float) → decay_all F tick (decay_all F tick s) ≡ decay_all F tick s
  unfolding decay_all
  decay_all-decay_all tick [] = refl
  decay_all-decay_all tick ((id, q) ∷ rest) =
      rw
        (
          decay_all-keep tick id q (decayed F tick q) (decay_all F tick rest) refl,
          decay_all-decay_all tick rest,
        )
        refl
