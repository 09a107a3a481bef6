-- ===== src/Actuation/Execution/Observation.antt =====
-- What the coordinator of clc/actuation/remembered_action_execution.py works on, with the calls that
-- follow an executed action: the observation of its consequence, and the memory of the transition.
use rnde_m.Prelude.{ℕ, Option, none, some, [], ◌∷◌, pos, ok, raised, codes}
use rnde_m.Prelude.Floats.{Floats}
use rnde_m.Prelude.State.{Method, lift, ◌>>=◌}
use rnde_m.Core.Ids.{IdGenerator, next_id}
use rnde_m.Patterns.Window.{make_window}
use rnde_m.Context.Causal.{RecentCausalTransition}
use rnde_m.Context.Manager.{NfpContext, observe_external_sensory_window}
use rnde_m.Context.ShortMemory.{ShortMemory, remember}
use rnde_m.Transduction.Visual.{transduce}
use rnde_m.Actuation.Execution.{Detail, nothing, retention_failed, World}

-- The coordinator's id generator and transducer, and the objects that are passed to `execute`.
pub record LoopState (V W : Type 0) : Type 0 where
  pub ids : IdGenerator
  pub next_signal_id : ℕ
  pub manager : NfpContext V
  pub world : W
  pub memory : Option (ShortMemory V)

module _ {V W A : Type 0} where
  -- A call on one of the objects.
  abbrev pub on_ids : (IdGenerator → A × IdGenerator) → Method (LoopState V W) A
  on_ids f s = let (a, ids) = f s.ids in (ok a, record s { ids = ids })

  abbrev pub on_signals : Method ℕ A → Method (LoopState V W) A
  on_signals m s = let (r, n) = m s.next_signal_id in (r, record s { next_signal_id = n })

  abbrev pub on_manager : Method (NfpContext V) A → Method (LoopState V W) A
  on_manager m s = let (r, c) = m s.manager in (r, record s { manager = c })

  abbrev pub on_world : Method W A → Method (LoopState V W) A
  on_world m s = let (r, w) = m s.world in (r, record s { world = w })

module _ (F : Floats) (W : World (F.Float)) where
  open F use {Float}

  abbrev pub Loop : Type 0
  Loop = LoopState Float (W.State)

  -- The `try` block that observes the consequence.
  unfoldable pub observe_after : Method Loop (Option (RecentCausalTransition Float))
  observe_after = do
    snapshot ← on_world W.snapshot
    frame_id ← on_ids (next_id (codes "remembered_action_observation_frame"))
    frame ← lift (transduce F snapshot frame_id)
    window_id ← on_ids (next_id (codes "remembered_action_observation_window"))
    window ← lift (make_window window_id (frame ∷ []) none none)
    on_manager (observe_external_sensory_window window)

  -- The completed transition is remembered; a failure of that is only a detail.
  unfoldable pub retain : RecentCausalTransition Float → Loop → Detail × Loop
  retain recent s = elim s.memory [
    | none ↦ (nothing, s)
    | some memory ↦
        let (r, memory') = remember recent (pos recent.observation_tick) memory in
        (
          elim r [ ok _ ↦ nothing | raised e ↦ retention_failed e ],
          record s { memory = some memory' },
        )
  ]
