-- ===== src/Examples/Sensors.antt =====
-- Frames and windows of a two-cell visual field, and an action.
use rnde_m.Prelude.{ℕ, none, [], ◌∷◌, arith, refl, codes, ℤ, pos, ◌++◌}
use rnde_m.Patterns.Model.{
  PatternTopology, NfpFrame, visual, action, external_sensory, action_generated,
}
use rnde_m.Patterns.Window.{NfpWindow, frames}
use rnde_m.Context.Causality.{IsExternal}
use rnde_m.Patterns.Window.Laws.{IsWindow}

abbrev pub pixel_pair : PatternTopology
pixel_pair = record { shape = 1 ∷ 2 ∷ [] }

abbrev pub frame_at : ℕ → ℤ → ℤ → NfpFrame ℤ
frame_at tick a b = record {
  frame_id = codes "frame" ++ tick ∷ [];
  modality = visual;
  origin = external_sensory;
  topology = pixel_pair;
  values = a ∷ b ∷ [];
  active_tick = tick;
  provenance_ref = none;
  debug_name = none;
}

abbrev pub two_frames : ℕ → ℕ → NfpWindow ℤ
two_frames t u = record {
  window_id = codes "window";
  first = frame_at t (pos 100) (pos 200);
  rest = frame_at u (pos 300) (pos 200) ∷ [];
  provenance_ref = none;
  debug_name = none;
}

abbrev pub push_at : ℕ → NfpFrame ℤ
push_at tick = record {
  frame_id = codes "push";
  modality = action;
  origin = action_generated;
  topology = record { shape = 1 ∷ [] };
  values = pos 1000 ∷ [];
  active_tick = tick;
  provenance_ref = none;
  debug_name = none;
}

-- Frames at two ticks, the first one earlier.
pub two_frames-IsWindow : IsWindow (frames (two_frames 4 5))
two_frames-IsWindow = (
  (record { same_modality = refl; same_topology = refl }, tt),
  ((record { earlier = omega arith; other_id = λ e. cc }, tt), (tt, tt)),
)

pub later_frames-IsWindow : IsWindow (frames (two_frames 5 6))
later_frames-IsWindow = (
  (record { same_modality = refl; same_topology = refl }, tt),
  ((record { earlier = omega arith; other_id = λ e. cc }, tt), (tt, tt)),
)

pub two_frames-IsExternal : (t u : ℕ) → IsExternal (two_frames t u)
two_frames-IsExternal t u = record { is_visual = refl; from_sensors = (refl, (refl, tt)) }
