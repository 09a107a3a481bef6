-- ===== src/Actuation/Execution.antt =====
-- clc/actuation/remembered_action_execution.py: the statuses, requests, intents and results, the
-- materializer, and what the coordinator asks of a world.
pub mod Response
pub mod Observation
pub mod Coordinator
use rnde_m.Prelude.{
  ℕ, Bool, true, false, not, ◌||◌, Option, none, some, List, [], ◌∷◌, map, ◌==◌, ℤ, pos, Result, ok,
  raise_if, non_negative, Text, is_blank, String, Error, if◌then◌else◌, ◌>>=◌, ◌>>◌,
}
use rnde_m.Prelude.Floats.{Floats}
use rnde_m.Prelude.State.{Method}
use rnde_m.Core.Ids.{is_in}
use rnde_m.Patterns.Model.{
  NfpFrame, action, action_generated, eq_modality, eq_origin, make_topology, make_frame,
}
use rnde_m.Patterns.Window.{NfpWindow, end_tick}
use rnde_m.Context.Causal.{PendingCausalTransition, RecentCausalTransition}
use rnde_m.Transduction.Visual.{VisualFieldSnapshot}
use rnde_m.Experience.Serialized.{
  SerializedNfpActionV1, SerializedObservedEffectV1, FeedbackTargetCore, modality_of,
}
use rnde_m.Actuation.Motor.{ActuatorSignal}

pub data ExecutionStatus : Type 0 where
  executed_and_observed stale_selection invalid_selected_experience causal_slot_occupied
        actuator_incompatible guard_denied transduction_rejected world_execution_failed
        action_executed_causal_tracking_failed action_executed_observation_pending :
      ExecutionStatus

-- The property `executed`.
abbrev pub is_executed : ExecutionStatus → Bool
is_executed executed_and_observed = true
is_executed action_executed_causal_tracking_failed = true
is_executed action_executed_observation_pending = true
is_executed stale_selection = false
is_executed invalid_selected_experience = false
is_executed causal_slot_occupied = false
is_executed actuator_incompatible = false
is_executed guard_denied = false
is_executed transduction_rejected = false
is_executed world_execution_failed = false

-- `SelectedNFPExpSMExperience` of clc/expsm/nfp_operational_retrieval.py
pub record SelectedExperience (V : Type 0) : Type 0 where
  pub selection_id : Text
  pub activation_id : Text
  pub retrieval_candidate_id : Text
  pub source_experience_id : Text
  pub context_similarity : V
  pub activation : V
  pub action : SerializedNfpActionV1 V
  pub effect : SerializedObservedEffectV1 V
  pub confidence : V
  pub repeatability : V
  pub viability : V
  pub target_core : Option (FeedbackTargetCore V)

-- The tick is a natural once the constructor has accepted it.
pub record ExecutionRequest (V : Type 0) : Type 0 where
  pub selected : SelectedExperience V
  pub selection_context_end_tick : ℕ

unfoldable pub make_request : {V : Type 0} → SelectedExperience V → ℤ → Result (ExecutionRequest V)
make_request selected tick = do
  t ← non_negative tick "selection_context_end_tick must be >= 0"
  ok (record { selected = selected; selection_context_end_tick = t })

pub record ActionIntent (V : Type 0) : Type 0 where
  pub action_frame : NfpFrame V
  pub source_experience_id : Text
  pub source_activation_id : Text
  pub selection_id : Text
  pub predicted_effect : SerializedObservedEffectV1 V
  pub selection_context_end_tick : ℕ
  pub before_context : NfpWindow V
  pub target_core : Option (FeedbackTargetCore V)

-- `__post_init__`
unfoldable pub make_intent : {V : Type 0} → ActionIntent V → Result (ActionIntent V)
make_intent i = do
  raise_if (not (eq_modality i.action_frame.modality action)) "action_frame modality must be ACTION"
  raise_if (not (eq_origin i.action_frame.origin action_generated))
      "action_frame origin must be ACTION_GENERATED"
  raise_if (not (end_tick i.before_context == i.selection_context_end_tick))
      "before context must end at selection context tick"
  raise_if (not (i.action_frame.active_tick == i.selection_context_end_tick))
      "action tick must equal selection context tick"
  raise_if (is_blank i.source_experience_id) "source_experience_id must be non-empty"
  raise_if (is_blank i.source_activation_id) "source_activation_id must be non-empty"
  raise_if (is_blank i.selection_id) "selection_id must be non-empty"
  raise_if
      (is_in (i.source_experience_id ∷ i.source_activation_id ∷ i.selection_id ∷ [])
        i.action_frame.frame_id)
      "fresh action frame identity must be independent"
  ok i

-- `detail`: a text of the source, `str(exc)` of an exception, or the one of a failed retention.
pub data Detail : Type 0 where
  nothing : Detail
  says : String → Detail
  exception : Error → Detail
  retention_failed : Error → Detail

pub record ExecutionResult (V : Type 0) : Type 0 where
  pub status : ExecutionStatus
  pub source_experience_id : Option Text
  pub action_frame : Option (NfpFrame V)
  pub before_context : Option (NfpWindow V)
  pub predicted_effect : Option (SerializedObservedEffectV1 V)
  pub actuator_signal : Option (ActuatorSignal V)
  pub pending_transition : Option (PendingCausalTransition V)
  pub recent_transition : Option (RecentCausalTransition V)
  pub detail : Detail
  pub target_core : Option (FeedbackTargetCore V)

-- What the coordinator calls of `world`, an object of any class: `getattr(world, "current_tick",
-- None)`, `apply_actuator_signal` and `snapshot`, which may raise.
pub record World (V : Type 0) : Type 1 where
  pub State : Type 0
  pub current_tick : State → Option ℕ
  pub apply_actuator_signal : ActuatorSignal V → Method State (Unit {0})
  pub snapshot : Method State (VisualFieldSnapshot V)

module _ (F : Floats) where
  open F use {Float}

  -- The frame of the occurrence.
  unfoldable pub occurrence_frame : SelectedExperience Float → ℕ → Text → Result (NfpFrame Float)
  occurrence_frame selected tick id = do
    modality ← modality_of selected.action.modality
    topology ← make_topology (map pos selected.action.topology)
    make_frame F id modality action_generated topology selected.action.values (pos tick) none none

  -- `NFPActionOccurrenceMaterializer.materialize`
  unfoldable pub materialize :
      ExecutionRequest Float → ℕ → Text → NfpWindow Float → Result (ActionIntent Float)
  materialize request tick id before = do
    frame ← occurrence_frame request.selected tick id
    make_intent (record {
      action_frame = frame;
      source_experience_id = request.selected.source_experience_id;
      source_activation_id = request.selected.activation_id;
      selection_id = request.selected.selection_id;
      predicted_effect = request.selected.effect;
      selection_context_end_tick = request.selection_context_end_tick;
      before_context = before;
      target_core = request.selected.target_core;
    })
