-- ===== src/Examples/Actuation.antt =====
-- Examples for clc/actuation.
use rnde_m.Prelude.{◌≡◌, refl, none, [], ◌∷◌, ok, pos, ℤ, Text, codes}
use rnde_m.Patterns.Model.{NfpFrame, action, action_generated, size, product}
use rnde_m.Experience.Effects.Laws.{IsActivation}
use rnde_m.Actuation.Motor.{action_motor_topology, transduce_action}
use rnde_m.Actuation.Motor.Laws.{signal_of, transduce_action_total}
use rnde_m.Examples.Thousandths.{thousandths}

abbrev turn : NfpFrame ℤ
turn = record {
  frame_id = codes "turn";
  modality = action;
  origin = action_generated;
  topology = action_motor_topology;
  values = pos 1000 ∷ pos 250 ∷ [];
  active_tick = 5;
  provenance_ref = none;
  debug_name = none;
}

abbrev digest : Text → Text
digest s = s

turn-IsActivation : IsActivation thousandths turn
unfolding size product
turn-IsActivation = record {
  sized = refl;
  in_unit = (
    record { finite = refl; not_below = refl; not_above = refl },
    (record { finite = refl; not_below = refl; not_above = refl }, tt),
  );
}

transduce_action_total_example :
    transduce_action thousandths digest turn 7 ≡ (ok (signal_of thousandths digest turn 7), 8)
transduce_action_total_example =
    transduce_action_total thousandths digest turn 7 (record { is_action = refl; generated = refl })
      refl turn-IsActivation
