-- ===== src/Actuation/Execution/Response.antt =====
-- What the coordinator of clc/actuation/remembered_action_execution.py relies on in a world, as an
-- interface: the world answers signals and shows itself.
use rnde_m.Prelude.{ℕ, ◌+◌, ◌≡◌, some, length, ok}
use rnde_m.Prelude.Floats.{Floats}
use rnde_m.Patterns.Model.{PatternTopology}
use rnde_m.Transduction.Visual.{VisualFieldSnapshot}
use rnde_m.Transduction.Visual.Laws.{IsSnapshot}
use rnde_m.Actuation.Motor.{ActuatorSignal}
use rnde_m.Actuation.Execution.{World}

pub record Response (F : Floats) (W : World (F.Float)) : Type 1 where
  -- The world is in order, at a tick, with a field of a shape.
  pub IsReady : W.State → ℕ → PatternTopology → Type 0
  pub tells_tick :
      (w : W.State) (t : ℕ) (p : PatternTopology) → IsReady w t p → W.current_tick w ≡ some t
  -- A signal of two values for this tick is taken, and brings the next tick.
  pub takes_signal :
      (w : W.State) (t : ℕ) (p : PatternTopology) (signal : ActuatorSignal (F.Float))
      → IsReady w t p
      → signal.active_tick ≡ t
      → length signal.values ≡ 2
      → (after : W.State) × (W.apply_actuator_signal signal w ≡ (ok tt, after))
        × IsReady after (t + 1) p
  -- A snapshot is taken, of this tick and shape.
  pub shows :
      (w : W.State) (t : ℕ) (p : PatternTopology)
      → IsReady w t p
      → (snapshot : VisualFieldSnapshot (F.Float)) × (after : W.State) × (W.snapshot w
          ≡ (ok snapshot, after))
        × IsSnapshot F snapshot
        × (snapshot.active_tick ≡ t)
        × ((record { shape = snapshot.shape }) ≡ p)
        × IsReady after t p
