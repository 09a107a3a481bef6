-- ===== src/Scenarios/World/Answers.antt =====
-- The synthetic world of scenarios/support/synthetic_closed_loop_visual_world.py as a world of the
-- coordinator.
use rnde_m.Prelude.{ℕ, ◌+◌, ◌≡◌, sym, ap, ◌∙◌, some, [], ◌∷◌, length, ok, arith}
use rnde_m.Prelude.Floats.{Floats}
use rnde_m.Patterns.Model.{PatternTopology}
use rnde_m.Actuation.Motor.{ActuatorSignal}
use rnde_m.Actuation.Execution.Response.{Response}
use rnde_m.Scenarios.World.{VisualWorld, apply_signal, visual_world}
use rnde_m.Scenarios.World.Setup.{IsPlaced}
use rnde_m.Scenarios.World.Laws.{
  shown, snapshot_total, shown-IsSnapshot, moved, moved-IsPlaced, apply_signal_total, drive_two,
}

pub record IsWorldReady (w : VisualWorld) (t : ℕ) (p : PatternTopology) : Type 0 where
  pub placed : IsPlaced w
  pub ticks : w.current_tick ≡ t
  pub shaped : (record { shape = w.rows ∷ w.columns ∷ [] }) ≡ p

module _ (F : Floats) where
  open F use {Float}

  pub takes :
      (w : VisualWorld) (t : ℕ) (p : PatternTopology) (signal : ActuatorSignal Float)
      → IsWorldReady w t p
      → signal.active_tick ≡ t
      → length signal.values ≡ 2
      → (after : VisualWorld) × (apply_signal F signal w ≡ (ok tt, after))
        × IsWorldReady after (t + 1) p
  takes w t p signal h tick two =
      let (d, driven) = drive_two F signal.values two in
      (
        moved F w d,
        apply_signal_total F w signal d (tick ∙ sym h.ticks) driven,
        record { placed = moved-IsPlaced F w d h.placed; ticks = omega arith; shaped = h.shaped },
      )

  abbrev pub response : Response F (visual_world F)
  response = record {
    IsReady = IsWorldReady;
    tells_tick = λ w t p h. ap some h.ticks;
    takes_signal = takes;
    shows = λ w t p h. (
      shown F w,
      record w { next_snapshot_id = w.next_snapshot_id + 1 },
      snapshot_total F w h.placed,
      shown-IsSnapshot F w h.placed,
      h.ticks,
      h.shaped,
      record {
        placed = record { in_rows = h.placed.in_rows; in_columns = h.placed.in_columns };
        ticks = h.ticks;
        shaped = h.shaped;
      },
    );
  }
