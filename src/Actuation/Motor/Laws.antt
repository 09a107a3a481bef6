-- ===== src/Actuation/Motor/Laws.antt =====
-- Every action frame for the motor becomes a signal.
use rnde_m.Prelude.{
  ℕ, ◌+◌, ◌≡◌, refl, ◌∙◌, ap, false, List, [], ◌∷◌, ◌++◌, arith, length, All, ok, Text, codes,
  strip, is_space, visible-blank, is_blank,
}
use rnde_m.Prelude.Floats.{Floats}
use rnde_m.Patterns.Model.{
  NfpFrame, size, product, action, action_generated, eq_modality_iff, eq_origin_iff,
}
use rnde_m.Patterns.Window.Laws.{eq_topology_iff}
use rnde_m.Context.Causality.{IsAction}
use rnde_m.Experience.Effects.Laws.{IsUnit, IsActivation}
use rnde_m.Actuation.Motor.{
  ActuatorSignal, action_motor_topology, opaque_frame_ref, check_signal, make_signal, check_action,
  signal_for, transduce_action,
}

ref_visible : (digest : Text → Text) (id : Text) → is_blank (opaque_frame_ref digest id) ≡ false
unfolding opaque_frame_ref is_space
ref_visible digest id = visible-blank 97 (codes "ction_frame_ref:" ++ digest id) refl

module _ (F : Floats) where
  open F use {Float}

  check_signal-units : (vs : List Float) → All (IsUnit F) vs → check_signal F vs ≡ ok tt
  unfolding check_signal
  check_signal-units [] h = refl
  check_signal-units (v ∷ vs) h =
      rw (h.0.finite, h.0.not_below, h.0.not_above) (check_signal-units vs h.1)

  abbrev pub signal_of : (Text → Text) → NfpFrame Float → ℕ → ActuatorSignal Float
  signal_of digest f n = record {
    values = f.values;
    active_tick = f.active_tick;
    signal_id = n;
    source_frame_ref = strip (opaque_frame_ref digest f.frame_id);
  }

  check_action-passes :
      (f : NfpFrame Float)
      → IsAction f
      → f.topology ≡ action_motor_topology
      → check_action F f ≡ ok tt
  unfolding check_action
  check_action-passes f h t = ground (
    arith,
    (eq_modality_iff f.modality action).1 h.is_action,
    (eq_origin_iff f.origin action_generated).1 h.generated,
    (eq_topology_iff f.topology action_motor_topology).1 t,
  )

  two_values :
      (f : NfpFrame Float)
      → IsActivation F f
      → f.topology ≡ action_motor_topology
      → length f.values ≡ 2
  unfolding size product
  two_values f a t = a.sized ∙ ap size t

  signal_made :
      (digest : Text → Text) (f : NfpFrame Float) (n : ℕ)
      → check_action F f ≡ ok tt
      → length f.values ≡ 2
      → check_signal F f.values ≡ ok tt
      → signal_for F digest f n ≡ ok (signal_of digest f n)
  unfolding signal_for make_signal
  signal_made digest f n passed two checked = ground (arith, ref_visible digest f.frame_id)

  -- A generated action frame of the motor's topology, with the activations that a frame's constructor
  -- accepts, becomes a signal with its values and tick: no check of the signal raises. The signal has
  -- the next number, and the number after it is next.
  pub transduce_action_total :
      (digest : Text → Text) (f : NfpFrame Float) (n : ℕ)
      → IsAction f
      → f.topology ≡ action_motor_topology
      → IsActivation F f
      → transduce_action F digest f n ≡ (ok (signal_of digest f n), n + 1)
  unfolding transduce_action
  transduce_action_total digest f n h t a = ground (
    arith,
    signal_made digest f n (check_action-passes f h t) (two_values f a t)
        (check_signal-units f.values a.in_unit),
  )
