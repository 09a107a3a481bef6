-- ===== src/Scenarios/World.antt =====
-- scenarios/support/synthetic_closed_loop_visual_world.py: a mutable world with one lit cell, which
-- an actuator signal moves along its row.
pub mod Setup
pub mod Laws
pub mod Answers
use rnde_m.Prelude.{
  ℕ, zero, suc, ◌+◌, ◌-◌, ◌*◌, ◌/◌, Bool, not, ◌||◌, Option, none, some, List, [], ◌∷◌, ltb, leb,
  ◌==◌, length, if◌then◌else◌, ℤ, pos, negsuc, String, Checked, Result, ok, raised, value_error,
  index_error, raise_if, non_negative,
}
use rnde_m.Prelude.Floats.{Floats}
use rnde_m.Prelude.State.{Method, pure, lift, gets, modify, ◌>>=◌, ◌>>◌}
use rnde_m.Patterns.Model.{is_positive, magnitude}
use rnde_m.Transduction.Visual.{VisualFieldSnapshot, make_snapshot}
use rnde_m.Actuation.Motor.{ActuatorSignal}
use rnde_m.Actuation.Execution.{World}

-- The shape is (rows, columns).
pub record VisualWorld : Type 0 where
  pub rows : ℕ
  pub columns : ℕ
  pub current_tick : ℕ
  pub row : ℕ
  pub column : ℕ
  pub next_snapshot_id : ℕ

-- `[0.0] * n`
unfoldable pub repeated : {A : Type 0} → ℕ → A → List A
repeated zero a = []
repeated (suc n) a = a ∷ repeated n a

-- `values[i] = v` where `i` is an index of the list
unfoldable pub set : {A : Type 0} → List A → ℕ → A → List A
set [] i v = []
set (x ∷ xs) zero v = v ∷ xs
set (x ∷ xs) (suc i) v = x ∷ set xs i v

module _ (F : Floats) where
  open F use {Float, zero_f, one_f, lt_f, sub_f}

  -- The field with the cell at the position lit.
  unfoldable pub field_values : VisualWorld → Result (List Float)
  field_values w =
      let dark = repeated (w.rows * w.columns) zero_f in
      let i = w.row * w.columns + w.column in
      if ltb i (length dark)
      then ok (set dark i one_f)
      else raised (index_error "list assignment index out of range")

  unfoldable pub snapshot : Method VisualWorld (VisualFieldSnapshot Float)
  snapshot = do
    values ← λ w. (field_values w, w)
    taken ← λ w. (
      make_snapshot F (pos w.rows ∷ pos w.columns ∷ []) values (pos w.current_tick)
          (pos w.next_snapshot_id),
      w,
    )
    modify (λ w. record w { next_snapshot_id = w.next_snapshot_id + 1 })
    pure taken

  -- `signal.values[1] - signal.values[0]`
  unfoldable pub drive : List Float → Result Float
  drive (a ∷ b ∷ rest) = ok (sub_f b a)
  drive [] = raised (index_error "tuple index out of range")
  drive (a ∷ []) = raised (index_error "tuple index out of range")

  -- The new column.
  unfoldable pub shifted : Float → ℕ → ℕ → ℕ
  shifted d columns column =
      if lt_f zero_f d
      then (if ltb (columns - 1) (column + 1) then columns - 1 else column + 1)
      else if lt_f d zero_f
      then column - 1
      else column

  unfoldable pub apply_signal : ActuatorSignal Float → Method VisualWorld (Unit {0})
  apply_signal signal = do
    tick ← gets (λ w. w.current_tick)
    lift (
        raise_if (not (signal.active_tick == tick))
          "signal active_tick must equal world current_tick")
    d ← lift (drive signal.values)
    modify (λ w. record w { column = shifted d w.columns w.column })
    modify (λ w. record w { current_tick = w.current_tick + 1 })

  -- What the coordinator sees of it.
  abbrev pub visual_world : World Float
  visual_world = record {
    State = VisualWorld;
    current_tick = λ w. some w.current_tick;
    apply_actuator_signal = apply_signal;
    snapshot = snapshot;
  }
