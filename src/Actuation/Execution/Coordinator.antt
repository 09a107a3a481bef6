-- ===== src/Actuation/Execution/Coordinator.antt =====
-- `NFPRememberedActionExecutionCoordinator.execute` of clc/actuation/remembered_action_execution.py
-- as stages that may return early. An exception of a call becomes a status; none leaves `execute`.
pub mod Safety
pub mod Progress
pub mod Completion
pub mod Readiness
pub mod Runs
use rnde_m.Prelude.{
  ℕ, Bool, true, false, not, Option, none, some, List, [], ◌∷◌, ◌==◌, Result, ok, raised, Text,
  codes, Error, if◌then◌else◌,
}
use rnde_m.Prelude.Floats.{Floats}
use rnde_m.Prelude.State.{Method, lift}
use rnde_m.Prelude.Stages.{Next, go, stop, Stage, ◌>>=◌, ◌>>◌, returns, settle}
use rnde_m.Core.Ids.{IdGenerator}
use rnde_m.Core.Ids.Fresh.{fresh_id}
use rnde_m.Patterns.Model.{NfpFrame, eq_topology}
use rnde_m.Patterns.Window.{NfpWindow, end_tick}
use rnde_m.Context.Causal.{PendingCausalTransition, RecentCausalTransition}
use rnde_m.Context.Manager.{observe_action_frame}
use rnde_m.System.State.{SystemState}
use rnde_m.System.ActionGuard.{is_native_action_allowed}
use rnde_m.Actuation.Motor.{ActuatorSignal, action_motor_topology, transduce_action}
use rnde_m.Actuation.Execution.{
  ExecutionStatus, executed_and_observed, stale_selection, invalid_selected_experience,
  causal_slot_occupied, actuator_incompatible, guard_denied, transduction_rejected,
  world_execution_failed, action_executed_causal_tracking_failed,
  action_executed_observation_pending, SelectedExperience, ExecutionRequest, ActionIntent,
  ExecutionResult, Detail, nothing, says, exception, World, materialize,
}
use rnde_m.Actuation.Execution.Observation.{
  LoopState, on_signals, on_manager, on_world, Loop, observe_after, retain,
}

-- `_fresh_frame_id`
unfoldable pub fresh_frame_id :
    {V : Type 0} → SelectedExperience V → IdGenerator → Text × IdGenerator
fresh_frame_id selected = fresh_id (codes "remembered_action_frame") (
    selected.source_experience_id ∷ selected.activation_id ∷ selected.retrieval_candidate_id
    ∷ selected.selection_id ∷ [])

abbrev pub is_some : {A : Type 0} → Option A → Bool
is_some none = false
is_some (some a) = true

module _ {V : Type 0} where
  -- `common`, `materialized` and `executed`, with a status and a detail.
  abbrev pub common : SelectedExperience V → ExecutionStatus → Detail → ExecutionResult V
  common selected status detail = record {
    status = status;
    source_experience_id = some selected.source_experience_id;
    action_frame = none;
    before_context = none;
    predicted_effect = some selected.effect;
    actuator_signal = none;
    pending_transition = none;
    recent_transition = none;
    detail = detail;
    target_core = selected.target_core;
  }

  abbrev pub in_context :
      SelectedExperience V → NfpWindow V → ExecutionStatus → Detail → ExecutionResult V
  in_context selected before status detail = record (common selected status detail) {
    before_context = some before;
  }

  abbrev pub materialized :
      SelectedExperience V → NfpWindow V → NfpFrame V → ExecutionStatus → Detail → ExecutionResult V
  materialized selected before frame status detail =
      record (in_context selected before status detail) { action_frame = some frame }

  abbrev pub executed :
      SelectedExperience V
      → NfpWindow V
      → NfpFrame V
      → ActuatorSignal V
      → ExecutionStatus
      → Detail
      → ExecutionResult V
  executed selected before frame signal status detail =
      record (materialized selected before frame status detail) { actuator_signal = some signal }

  -- `before is None or tick != before.end_tick or tick != world_tick`, by what is left otherwise
  abbrev pub current_context : ℕ → Option (NfpWindow V) → Option ℕ → Option (NfpWindow V)
  current_context tick none world_tick = none
  current_context tick (some w) none = none
  current_context tick (some w) (some t) =
      if tick == end_tick w then (if tick == t then some w else none) else none

-- What the action goes out with.
pub record Prepared (V : Type 0) : Type 0 where
  pub before : NfpWindow V
  pub frame : NfpFrame V
  pub signal : ActuatorSignal V

module _ {V : Type 0} (selected : SelectedExperience V) (p : Prepared V) where
  abbrev pub refused_by_world : Error → ExecutionResult V
  refused_by_world e =
      record (materialized selected p.before p.frame world_execution_failed (exception e)) {
        actuator_signal = some p.signal;
      }

  abbrev pub awaiting : PendingCausalTransition V → Detail → ExecutionResult V
  awaiting pending detail =
      record (executed selected p.before p.frame p.signal action_executed_observation_pending
        detail) { pending_transition = some pending }

module _ (F : Floats) (W : World (F.Float)) (digest : Text → Text) where
  open F use {Float}

  abbrev pub Doing : Type 0 → Type 0
  Doing A = Stage (Loop F W) (ExecutionResult Float) A

  abbrev pub unless : Bool → ExecutionResult Float → Doing (Unit {0})
  unless true r s = (go tt, s)
  unless false r s = (stop r, s)

  -- A call under `try`, with the result of the `except` block.
  abbrev pub attempt :
      {A : Type 0} → (Error → ExecutionResult Float) → Method (Loop F W) A → Doing A
  attempt handler m s =
      let (r, s') = m s in elim r [ ok a ↦ (go a, s') | raised e ↦ (stop (handler e), s') ]

  -- The context of the selection, if the world and the manager are still at its tick.
  unfoldable pub selection_context : ExecutionRequest Float → Doing (NfpWindow Float)
  selection_context request s =
      elim (current_context request.selection_context_end_tick
        s.manager.current_external_sensory_window (W.current_tick s.world)) [
          | some w ↦ (go w, s)
          | none ↦ (
            stop (common request.selected stale_selection (says "selection_context_tick_mismatch")),
            s,
          )
        ]

  unfoldable pub require_free_slot : SelectedExperience Float → NfpWindow Float → Doing (Unit {0})
  require_free_slot selected before s =
      unless (not (is_some s.manager.pending_causal_transition))
        (in_context selected before causal_slot_occupied (says "pending_causal_transition_exists"))
        s

  -- A fresh frame id, and the intent under it.
  unfoldable pub materialize_fresh :
      ExecutionRequest Float → NfpWindow Float → Doing (ActionIntent Float)
  materialize_fresh request before s =
      let (id, ids) = fresh_frame_id request.selected s.ids in
      attempt (λ e. in_context request.selected before invalid_selected_experience (exception e))
        (lift (materialize F request request.selection_context_end_tick id before))
        (record s { ids = ids })

  -- `execute` as far as the signal.
  unfoldable pub prepare : ExecutionRequest Float → SystemState → Doing (Prepared Float)
  prepare request system = do
    let tick = request.selection_context_end_tick
    before ← selection_context request
    require_free_slot request.selected before
    intent ← materialize_fresh request before
    let frame = intent.action_frame
    let fails = materialized request.selected before frame
    unless (eq_topology frame.topology action_motor_topology)
        (fails actuator_incompatible (says "action_topology_incompatible"))
    unless (is_native_action_allowed frame system tick)
        (fails guard_denied (says "native_action_denied_by_mode"))
    signal ←
        attempt (λ e. fails transduction_rejected (exception e))
          (on_signals (transduce_action F digest frame))
    λ s. (go (record { before = before; frame = frame; signal = signal }), s)

  -- The result when the observation returned.
  unfoldable pub conclude :
      SelectedExperience Float
      → Prepared Float
      → Option (RecentCausalTransition Float)
      → Doing (ExecutionResult Float)
  conclude selected p none s = (
    stop
        (record (executed selected p.before p.frame p.signal action_executed_observation_pending
          (says "causal_observation_not_completed")) {
            pending_transition = s.manager.pending_causal_transition;
          }),
    s,
  )
  conclude selected p (some recent) s =
      let (detail, s') = retain F W recent s in
      (
        go (record (executed selected p.before p.frame p.signal executed_and_observed detail) {
          recent_transition = some recent;
        }),
        s',
      )

  -- What is done when the world has taken the signal.
  unfoldable pub follow :
      SelectedExperience Float → Bool → Prepared Float → Doing (ExecutionResult Float)
  follow selected observe p = do
    let done = executed selected p.before p.frame p.signal
    pending ←
        attempt (λ e. done action_executed_causal_tracking_failed (exception e))
          (on_manager (observe_action_frame p.frame))
    let waits = awaiting selected p pending
    unless observe (waits nothing)
    recent ← attempt (λ e. waits (exception e)) (observe_after F W)
    conclude selected p recent

  -- The world's turn.
  unfoldable pub act :
      SelectedExperience Float → Bool → Prepared Float → Doing (ExecutionResult Float)
  act selected observe p = do
    attempt (refused_by_world selected p) (on_world (W.apply_actuator_signal p.signal))
    follow selected observe p

  unfoldable pub execute :
      ExecutionRequest Float → SystemState → Bool → Loop F W → ExecutionResult Float × Loop F W
  execute request system observe s =
      let (n, s') = (prepare request system >>= act request.selected observe) s in (settle n, s')
