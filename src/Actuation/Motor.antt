-- ===== src/Actuation/Motor.antt =====
-- clc/actuation/motor.py. The SHA-256 digest is the parameter `digest`: the first 16 hexadecimal
-- digits for a text. The transducer's state is the number of its next signal.
pub mod Laws
use rnde_m.Prelude.{
  ℕ, ◌+◌, Bool, not, ◌||◌, List, [], ◌∷◌, ◌++◌, ◌==◌, length, ℤ, pos, Checked, Result, ok, raised,
  raise_if, non_negative, Text, codes, strip, is_blank, ◌>>=◌, ◌>>◌,
}
use rnde_m.Prelude.Floats.{Floats}
use rnde_m.Prelude.State.{Method}
use rnde_m.Patterns.Model.{
  NfpFrame, PatternTopology, action, action_generated, eq_modality, eq_origin, eq_topology,
}

-- `ACTION_MOTOR_TOPOLOGY`
abbrev pub action_motor_topology : PatternTopology
action_motor_topology = record { shape = 2 ∷ [] }

pub record ActuatorSignal (V : Type 0) : Type 0 where
  pub values : List V
  pub active_tick : ℕ
  pub signal_id : ℕ
  pub source_frame_ref : Text

-- `_opaque_frame_ref`
unfoldable pub opaque_frame_ref : (Text → Text) → Text → Text
opaque_frame_ref digest id = codes "action_frame_ref:" ++ digest id

module _ (F : Floats) where
  open F use {Float, zero_f, one_f, lt_f, is_finite}

  -- The loop of `ActuatorSignal.__post_init__`.
  unfoldable pub check_signal : List Float → Checked
  check_signal [] = ok tt
  check_signal (v ∷ vs) = do
    raise_if (not (is_finite v)) "values must be finite"
    raise_if (lt_f v zero_f || lt_f one_f v) "values must be in [0.0, 1.0]"
    check_signal vs

  unfoldable pub make_signal : List Float → ℤ → ℤ → Text → Result (ActuatorSignal Float)
  unfolding check_signal
  make_signal values tick id ref = do
    raise_if (not (length values == 2)) "values length must be 2"
    check_signal values
    t ← non_negative tick "active_tick must be >= 0"
    n ← non_negative id "signal_id must be >= 0"
    raise_if (is_blank ref) "source_frame_ref must be non-empty"
    ok (record { values = values; active_tick = t; signal_id = n; source_frame_ref = strip ref })

  -- The guards of `ActionTransducer.transduce`.
  unfoldable pub check_action : NfpFrame Float → Checked
  check_action f = do
    raise_if (not (eq_modality f.modality action)) "action_frame modality must be ACTION"
    raise_if (not (eq_origin f.origin action_generated))
        "action_frame origin must be ACTION_GENERATED"
    raise_if (not (eq_topology f.topology action_motor_topology))
        "action_frame topology must be PatternTopology((2,))"

  unfoldable pub signal_for : (Text → Text) → NfpFrame Float → ℕ → Result (ActuatorSignal Float)
  signal_for digest f n = do
    check_action f
    make_signal f.values (pos f.active_tick) (pos n) (opaque_frame_ref digest f.frame_id)

  -- `ActionTransducer.transduce`
  unfoldable pub transduce_action : (Text → Text) → NfpFrame Float → Method ℕ (ActuatorSignal Float)
  unfolding signal_for
  transduce_action digest f n = elim (signal_for digest f n) [
    | raised e ↦ (raised e, n)
    | ok signal ↦ (ok signal, n + 1)
  ]
