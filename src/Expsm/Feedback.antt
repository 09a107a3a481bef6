-- ===== src/Expsm/Feedback.antt =====
-- clc/expsm/nfp_native_feedback.py: an executed prediction held against the effect that was observed.
pub mod Evaluator
pub mod Laws
pub mod Soundness
use rnde_m.Prelude.{
  ℕ, ◌+◌, Bool, true, false, not, ◌||◌, ◌&&◌, Option, none, some, List, [], ◌∷◌, ◌++◌, ◌==◌,
  if◌then◌else◌, length, Result, ok, raised, Error, type_error, value_error, index_error, key_error,
  zero_division_error, assertion_error, raise_if, ◌>>=◌, ◌>>◌, Text, codes, eq_text, is_blank,
  String,
}
use rnde_m.Prelude.Floats.{Floats}
use rnde_m.Patterns.Model.{NfpFrame}
use rnde_m.Patterns.Similarity.{NfpSimilarityResult, incomparable, scored, total_difference}
use rnde_m.Context.Causal.{RecentCausalTransition}
use rnde_m.Experience.Effects.{ObservedEffect, extract}
use rnde_m.Experience.Serialized.{SerializedObservedEffectV1, FeedbackTargetCore, modality_value}
use rnde_m.Actuation.Execution.{
  ExecutionStatus, executed_and_observed, stale_selection, invalid_selected_experience,
  causal_slot_occupied, actuator_incompatible, guard_denied, transduction_rejected,
  world_execution_failed, action_executed_causal_tracking_failed,
  action_executed_observation_pending, ExecutionResult,
}

pub data EvaluationStatus : Type 0 where
  hit miss not_eligible_execution observation_pending causal_tracking_unavailable
        transition_mismatch incomparable_effect invalid_actual_effect invalid_prediction :
      EvaluationStatus

abbrev pub is_verdict : EvaluationStatus → Bool
is_verdict hit = true
is_verdict miss = true
is_verdict not_eligible_execution = false
is_verdict observation_pending = false
is_verdict causal_tracking_unavailable = false
is_verdict transition_mismatch = false
is_verdict incomparable_effect = false
is_verdict invalid_actual_effect = false
is_verdict invalid_prediction = false

-- `status.value`
abbrev pub status_value : ExecutionStatus → Text
status_value executed_and_observed = codes "executed_and_observed"
status_value stale_selection = codes "stale_selection"
status_value invalid_selected_experience = codes "invalid_selected_experience"
status_value causal_slot_occupied = codes "causal_slot_occupied"
status_value actuator_incompatible = codes "actuator_incompatible"
status_value guard_denied = codes "guard_denied"
status_value transduction_rejected = codes "transduction_rejected"
status_value world_execution_failed = codes "world_execution_failed"
status_value action_executed_causal_tracking_failed = codes "action_executed_causal_tracking_failed"
status_value action_executed_observation_pending = codes "action_executed_observation_pending"

-- A text, or `str(exc)` of an exception.
pub data Explanation : Type 0 where
  says : Text → Explanation
  exception : Error → Explanation

pub record FeedbackEvidence (V : Type 0) : Type 0 where
  pub source_experience_id : Text
  pub target_core : FeedbackTargetCore V
  pub action_frame_id : Text
  pub action_tick : ℕ
  pub predicted_effect : SerializedObservedEffectV1 V
  pub actual_effect : ObservedEffect V
  pub effect_similarity : V
  pub agreement_threshold : V
  pub classification : EvaluationStatus

unfoldable pub make_feedback_evidence :
    {V : Type 0} → FeedbackEvidence V → Result (FeedbackEvidence V)
make_feedback_evidence e = do
  raise_if (not (is_verdict e.classification)) "evidence classification must be HIT or MISS"
  ok e

pub record EvaluationResult (V : Type 0) : Type 0 where
  pub status : EvaluationStatus
  pub evidence : Option (FeedbackEvidence V)
  pub effect_similarity : Option V
  pub detail : Explanation

abbrev pub has_evidence : {V : Type 0} → Option (FeedbackEvidence V) → Bool
has_evidence none = false
has_evidence (some e) = true

abbrev pub same : Bool → Bool → Bool
same true b = b
same false b = not b

unfoldable pub make_evaluation : {V : Type 0} → EvaluationResult V → Result (EvaluationResult V)
make_evaluation r = do
  raise_if (not (same (has_evidence r.evidence) (is_verdict r.status)))
      "only HIT/MISS results carry Feedback evidence"
  ok r

module _ {V : Type 0} where
  -- A result with a status and a detail only.
  abbrev pub without_evidence : EvaluationStatus → Explanation → Result (EvaluationResult V)
  without_evidence status detail =
      make_evaluation
        (record { status = status; evidence = none; effect_similarity = none; detail = detail })

  -- `transition or execution.recent_transition`
  abbrev pub either :
      Option (RecentCausalTransition V)
      → Option (RecentCausalTransition V)
      → Option (RecentCausalTransition V)
  either (some t) recent = some t
  either none recent = recent

  -- The frame, if it is the action of the transition.
  abbrev pub matching_frame : Option (NfpFrame V) → RecentCausalTransition V → Option (NfpFrame V)
  matching_frame none t = none
  matching_frame (some frame) t =
      if not (eq_text frame.frame_id t.action_frame.frame_id)
        || (not (frame.active_tick == t.action_frame.active_tick)
            || (not (t.action_tick == frame.active_tick)
                || not (t.observation_tick == t.action_tick + 1)))
      then none
      else some frame

-- `f"execution status {status.value} is not eligible"`
abbrev pub ineligible : ExecutionStatus → Option (EvaluationStatus × Text)
ineligible status = some (
  not_eligible_execution,
  codes "execution status " ++ status_value status ++ codes " is not eligible",
)

-- What a prediction consists of, once it is accepted.
pub record Prediction (V : Type 0) : Type 0 where
  pub effect : SerializedObservedEffectV1 V
  pub core : FeedbackTargetCore V
  pub source : Text
