-- ===== src/Actuation/Execution/Coordinator/Safety.antt =====
-- What `execute` leaves alone when the action was not executed.
use rnde_m.Prelude.{◌≡◌, Bool, true, false, ok, Text, arith, ◌⊎◌, inl, some}
use rnde_m.Prelude.Floats.{Floats}
use rnde_m.Prelude.Stages.{Next, go, stop, settle}
use rnde_m.System.State.{SystemState}
use rnde_m.Actuation.Motor.{ActuatorSignal, transduce_action}
use rnde_m.Actuation.Execution.{
  is_executed, world_execution_failed, SelectedExperience, ExecutionRequest, ExecutionResult, World,
}
use rnde_m.Actuation.Execution.Observation.{LoopState, Loop}
use rnde_m.Actuation.Execution.Coordinator.{
  Prepared, selection_context, require_free_slot, materialize_fresh, prepare, conclude, follow, act,
  execute,
}

-- The manager, the world and the memory are those of before.
pub record Untouched {V W : Type 0} (s t : LoopState V W) : Type 0 where
  pub same_manager : t.manager ≡ s.manager
  pub same_world : t.world ≡ s.world
  pub same_memory : t.memory ≡ s.memory

module _ (F : Floats) (W : World (F.Float)) (digest : Text → Text) where
  open F use {Float}

  -- A stage that touches nothing and stops only with a status of an action that was not executed.
  abbrev Refuses : {A : Type 0} → Loop F W → Next (ExecutionResult Float) A × Loop F W → Type 0
  Refuses s (go a, t) = Untouched s t
  Refuses s (stop r, t) = Untouched s t × (is_executed r.status ≡ false)

  prepare-Refuses :
      (request : ExecutionRequest Float) (system : SystemState) (s : Loop F W)
      → Refuses s (prepare F W digest request system s)
  unfolding prepare selection_context require_free_slot materialize_fresh transduce_action
  prepare-Refuses request system s = ground arith

  -- Once the world has taken the signal every outcome counts as executed.
  follow-executed :
      (selected : SelectedExperience Float) (observe : Bool) (p : Prepared Float) (s : Loop F W)
      → is_executed (settle (follow F W digest selected observe p s).0).status ≡ true
  unfolding follow conclude
  follow-executed selected observe p s = ground arith

  -- What the coordinator leaves alone.
  abbrev Leaves : Loop F W → ExecutionResult Float → Loop F W → Type 0
  Leaves s r t =
      (t.manager ≡ s.manager)
      × (t.memory ≡ s.memory)
      × ((t.world ≡ s.world) ⊎ (r.status ≡ world_execution_failed))

  act-Leaves :
      (selected : SelectedExperience Float) (observe : Bool) (p : Prepared Float) (s t : Loop F W)
      → Untouched s t
      → let (n, u) = act F W digest selected observe p t in
        is_executed (settle n).status ≡ false → Leaves s (settle n) u
  unfolding act
  act-Leaves selected observe p s t same h =
      let told = record t { world = (W.apply_actuator_signal p.signal t.world).1 } in
      ground (arith, follow-executed selected observe p told)

  abbrev after_preparing :
      SelectedExperience Float
      → Bool
      → Next (ExecutionResult Float) (Prepared Float) × Loop F W
      → Next (ExecutionResult Float) (ExecutionResult Float) × Loop F W
  after_preparing selected observe (n, t) = elim n [
    | go p ↦ act F W digest selected observe p t
    | stop r ↦ (stop r, t)
  ]

  -- Where the status of the result is not one of an executed action, the manager and the memory are
  -- as they were, and so is the world unless the status is WORLD_EXECUTION_FAILED.
  pub execute_untouched :
      (request : ExecutionRequest Float) (system : SystemState) (observe : Bool) (s : Loop F W)
      → is_executed (execute F W digest request system observe s).0.status ≡ false
      → let r = (execute F W digest request system observe s).0 in
        let t = (execute F W digest request system observe s).1 in
        (t.manager ≡ s.manager)
        × (t.memory ≡ s.memory)
        × ((t.world ≡ s.world) ⊎ (r.status ≡ world_execution_failed))
  unfolding execute
  execute_untouched request system observe s =
      after (prepare F W digest request system s) (prepare-Refuses request system s)
    where
      after :
          (o : Next (ExecutionResult Float) (Prepared Float) × Loop F W)
          → Refuses s o
          → let (n, t) = after_preparing request.selected observe o in
            is_executed (settle n).status ≡ false → Leaves s (settle n) t
      after (go p, t) same h = act-Leaves request.selected observe p s t same h
      after (stop r, t) same h = (same.0.same_manager, same.0.same_memory, inl same.0.same_world)

  -- What an executed action shows: the signal of the result, which the world has taken.
  abbrev Took : Loop F W → ExecutionResult Float → Type 0
  Took s r =
      (signal : ActuatorSignal Float) × (r.actuator_signal ≡ some signal)
      × ((W.apply_actuator_signal signal s.world).0 ≡ ok tt)

  follow-signal :
      (selected : SelectedExperience Float) (observe : Bool) (p : Prepared Float) (s : Loop F W)
      → (settle (follow F W digest selected observe p s).0).actuator_signal ≡ some p.signal
  unfolding follow conclude
  follow-signal selected observe p s = ground arith

  act-Took :
      (selected : SelectedExperience Float) (observe : Bool) (p : Prepared Float) (s t : Loop F W)
      → Untouched s t
      → let r = settle (act F W digest selected observe p t).0 in
        is_executed r.status ≡ true → Took s r
  unfolding act
  act-Took selected observe p s t same h =
      let told = record t { world = (W.apply_actuator_signal p.signal t.world).1 } in
      (p.signal, ground (arith, follow-signal selected observe p told), ground arith)

  -- Where the status of the result is one of an executed action, the result has a signal, and the
  -- world that was passed in takes that signal without raising.
  pub execute_taken :
      (request : ExecutionRequest Float) (system : SystemState) (observe : Bool) (s : Loop F W)
      → is_executed (execute F W digest request system observe s).0.status ≡ true
      → let r = (execute F W digest request system observe s).0 in
        (signal : ActuatorSignal Float) × (r.actuator_signal ≡ some signal)
        × ((W.apply_actuator_signal signal s.world).0 ≡ ok tt)
  unfolding execute
  execute_taken request system observe s =
      after (prepare F W digest request system s) (prepare-Refuses request system s)
    where
      after :
          (o : Next (ExecutionResult Float) (Prepared Float) × Loop F W)
          → Refuses s o
          → let (n, t) = after_preparing request.selected observe o in
            is_executed (settle n).status ≡ true → Took s (settle n)
      after (go p, t) same h = act-Took request.selected observe p s t same h
      after (stop r, t) same h = absurd (cc same.1)
