-- ===== src/Transduction/Visual.antt =====
-- clc/transduction/visual.py: snapshots of a two-dimensional field, and their frames.
pub mod Laws
use rnde_m.Prelude.{
  ℕ, ◌*◌, Bool, not, ◌||◌, none, some, List, [], ◌∷◌, ◌++◌, map, ◌==◌, length, any, ℤ, pos, Checked,
  Result, ok, ◌>>=◌, ◌>>◌, raise_if, non_negative, Text, codes,
}
use rnde_m.Prelude.Decimal.{decimal06}
use rnde_m.Prelude.Floats.{Floats}
use rnde_m.Patterns.Model.{
  NfpFrame, visual, external_sensory, make_topology, make_frame, is_positive, magnitude, product,
}

pub record VisualFieldSnapshot (V : Type 0) : Type 0 where
  pub shape : List ℕ
  pub values : List V
  pub active_tick : ℕ
  pub snapshot_id : ℕ

module _ (F : Floats) where
  open F use {Float, zero_f, one_f, lt_f, is_finite}

  -- The loop over the values.
  unfoldable pub check_snapshot : List Float → Checked
  check_snapshot [] = ok tt
  check_snapshot (v ∷ vs) = do
    raise_if (not (is_finite v)) "snapshot values must be finite"
    raise_if (lt_f v zero_f || lt_f one_f v) "snapshot values must be in [0.0, 1.0]"
    check_snapshot vs

  -- `__post_init__`; for two dimensions `rows * columns` is the product of the shape
  unfoldable pub make_snapshot : List ℤ → List Float → ℤ → ℤ → Result (VisualFieldSnapshot Float)
  make_snapshot shape values tick id = do
    raise_if (not (length shape == 2)) "shape must have exactly 2 dimensions"
    raise_if (any (λ (d : ℤ). not (is_positive d)) shape) "shape dimensions must be positive"
    t ← non_negative tick "active_tick must be >= 0"
    n ← non_negative id "snapshot_id must be >= 0"
    raise_if (not (length values == product (map magnitude shape)))
        "values length must equal rows * columns"
    check_snapshot values
    ok (record { shape = map magnitude shape; values = values; active_tick = t; snapshot_id = n })

  -- `VisualFieldTransducer.transduce`
  unfoldable pub transduce : VisualFieldSnapshot Float → Text → Result (NfpFrame Float)
  unfolding make_topology make_frame
  transduce s id = do
    topology ← make_topology (map pos s.shape)
    make_frame F id visual external_sensory topology s.values (pos s.active_tick)
        (some (codes "sensor_snapshot:" ++ decimal06 s.snapshot_id)) none
