-- ===== src/Expsm/Feedback/Evaluator.antt =====
-- `NFPFeedbackEvaluator` and the comparator of clc/expsm/nfp_native_feedback.py.
use rnde_m.Prelude.{
  Bool, true, false, not, ◌||◌, ◌&&◌, Option, none, some, List, [], ◌∷◌, ◌==◌, if◌then◌else◌,
  length, Result, ok, raised, zero_division_error, assertion_error, raise_if, ◌>>=◌, ◌>>◌, Text,
  codes, eq_text, is_blank, String, rescue,
}
use rnde_m.Prelude.Floats.{Floats}
use rnde_m.Patterns.Model.{NfpFrame}
use rnde_m.Patterns.Similarity.{NfpSimilarityResult, incomparable, scored, total_difference}
use rnde_m.Context.Causal.{RecentCausalTransition}
use rnde_m.Experience.Effects.{ObservedEffect, extract}
use rnde_m.Experience.Serialized.{SerializedObservedEffectV1, FeedbackTargetCore, modality_value}
use rnde_m.Actuation.Execution.{
  ExecutionStatus, executed_and_observed, stale_selection, invalid_selected_experience,
  causal_slot_occupied, actuator_incompatible, guard_denied, transduction_rejected,
  world_execution_failed, action_executed_causal_tracking_failed,
  action_executed_observation_pending, ExecutionResult,
}
use rnde_m.Expsm.Feedback.{
  EvaluationStatus, hit, miss, observation_pending, causal_tracking_unavailable,
  transition_mismatch, incomparable_effect, invalid_actual_effect, invalid_prediction, says,
  exception, make_feedback_evidence, EvaluationResult, make_evaluation, without_evidence, either,
  matching_frame, ineligible, Prediction,
}

module _ (F : Floats) where
  open F use {Float, zero_f, one_f, two_f, eq_f, lt_f, le_f, is_finite, sub_f, div_f, from_int}

  -- `float(threshold)` is given.
  unfoldable pub make_feedback_config : Float → Result Float
  make_feedback_config threshold = do
    raise_if (not (is_finite threshold) || (lt_f threshold zero_f || lt_f one_f threshold))
        "native_effect_agreement_threshold must be in [0.0, 1.0]"
    ok threshold

  -- `==` of two tuples of floats and of two effects; the values of an effect are finite.
  unfoldable pub eq_values : List Float → List Float → Bool
  eq_values [] [] = true
  eq_values [] (b ∷ bs) = false
  eq_values (a ∷ as') [] = false
  eq_values (a ∷ as') (b ∷ bs) = eq_f a b && eq_values as' bs

  unfoldable pub eq_effect :
      SerializedObservedEffectV1 Float → SerializedObservedEffectV1 Float → Bool
  unfolding eq_values
  eq_effect a b =
      eq_text a.modality b.modality
      && (eq_text a.topology b.topology && eq_values a.delta_values b.delta_values)

  -- `NativePredictedObservedEffectComparator.compare`
  unfoldable pub compare_predicted :
      SerializedObservedEffectV1 Float → ObservedEffect Float → Result (NfpSimilarityResult Float)
  compare_predicted predicted actual =
      if not (eq_text predicted.modality (modality_value actual.modality))
      then ok (incomparable "different_modality")
      else if not (eq_text predicted.topology actual.topology.shape)
      then ok (incomparable "different_topology")
      else if not (length predicted.delta_values == length actual.delta_values)
      then ok (incomparable "different_delta_length")
      else if length predicted.delta_values == 0
      then raised zero_division_error
      else let distance = total_difference F predicted.delta_values actual.delta_values in
        let mean = div_f distance (from_int (length predicted.delta_values)) in
        ok (scored (sub_f one_f (div_f mean two_f)))

  -- The prediction of an execution, if it and its target and source are valid.
  abbrev pub valid_prediction :
      Option (SerializedObservedEffectV1 Float)
      → Option (FeedbackTargetCore Float)
      → Option Text
      → Option (Prediction Float)
  valid_prediction none core source = none
  valid_prediction (some effect) none source = none
  valid_prediction (some effect) (some core) none = none
  valid_prediction (some effect) (some core) (some source) =
      if not (eq_effect effect core.effect) || is_blank source
      then none
      else some (record { effect = effect; core = core; source = source })

  -- A comparison that went through.
  unfoldable pub classify :
      Prediction Float
      → NfpFrame Float
      → ObservedEffect Float
      → Float
      → Float
      → Result (EvaluationResult Float)
  unfolding make_feedback_evidence make_evaluation
  classify prediction frame actual similarity threshold = do
    let verdict = if le_f threshold similarity then hit else miss
    evidence ← make_feedback_evidence (record {
      source_experience_id = prediction.source;
      target_core = prediction.core;
      action_frame_id = frame.frame_id;
      action_tick = frame.active_tick;
      predicted_effect = prediction.effect;
      actual_effect = actual;
      effect_similarity = similarity;
      agreement_threshold = threshold;
      classification = verdict;
    })
    make_evaluation (record {
      status = verdict;
      evidence = some evidence;
      effect_similarity = some similarity;
      detail = says [];
    })

  abbrev pub reason_or : Option String → Text
  reason_or none = codes "effects are structurally incomparable"
  reason_or (some reason) = codes reason

  -- `assert similarity is not None`, and what follows it.
  abbrev pub classify_scored :
      Prediction Float
      → NfpFrame Float
      → ObservedEffect Float
      → Option Float
      → Float
      → Result (EvaluationResult Float)
  classify_scored prediction frame actual none threshold = raised assertion_error
  classify_scored prediction frame actual (some similarity) threshold =
      classify prediction frame actual similarity threshold

  unfoldable pub conclude_comparison :
      Prediction Float
      → NfpFrame Float
      → ObservedEffect Float
      → Float
      → NfpSimilarityResult Float
      → Result (EvaluationResult Float)
  unfolding classify make_evaluation
  conclude_comparison prediction frame actual threshold r =
      if not r.comparable
      then without_evidence incomparable_effect (says (reason_or r.reason))
      else classify_scored prediction frame actual r.score threshold

  module _ (digest : Text → Text) where
    -- The effect of the transition held against the prediction.
    unfoldable pub evaluate_effect :
        Prediction Float
        → NfpFrame Float
        → RecentCausalTransition Float
        → Float
        → Result (EvaluationResult Float)
    unfolding conclude_comparison make_evaluation
    evaluate_effect prediction frame transition threshold = elim (extract F digest transition) [
      | raised e ↦ rescue (λ x. without_evidence invalid_actual_effect (exception x)) e
      | ok actual ↦ elim (compare_predicted prediction.effect actual) [
        | raised e ↦ rescue (λ x. without_evidence invalid_prediction (exception x)) e
        | ok r ↦ conclude_comparison prediction frame actual threshold r
      ]
    ]

    -- `evaluate` from the transition on.
    unfoldable pub evaluate_transition :
        ExecutionResult Float
        → Option (RecentCausalTransition Float)
        → Float
        → Result (EvaluationResult Float)
    unfolding evaluate_effect make_evaluation
    evaluate_transition execution none threshold =
        without_evidence observation_pending
          (says (codes "matching completed transition is not available"))
    evaluate_transition execution (some transition) threshold =
        elim (matching_frame execution.action_frame transition) [
          | none ↦
              without_evidence transition_mismatch
                (says (codes "transition occurrence does not match execution action"))
          | some frame ↦
              elim (valid_prediction execution.predicted_effect execution.target_core
                execution.source_experience_id) [
                  | none ↦
                      without_evidence invalid_prediction
                        (says (codes "prediction, TargetCore, or source identity is invalid"))
                  | some prediction ↦ evaluate_effect prediction frame transition threshold
                ]
        ]

    -- The test on the status of the execution: what is returned at once.
    abbrev pub unobserved :
        ExecutionStatus → Option (RecentCausalTransition Float) → Option (EvaluationStatus × Text)
    unobserved action_executed_causal_tracking_failed transition =
        some (causal_tracking_unavailable, codes "execution causal tracking failed")
    unobserved action_executed_observation_pending none =
        some (observation_pending, codes "matching completed transition is not available")
    unobserved action_executed_observation_pending (some t) = none
    unobserved executed_and_observed transition = none
    unobserved stale_selection transition = ineligible stale_selection
    unobserved invalid_selected_experience transition = ineligible invalid_selected_experience
    unobserved causal_slot_occupied transition = ineligible causal_slot_occupied
    unobserved actuator_incompatible transition = ineligible actuator_incompatible
    unobserved guard_denied transition = ineligible guard_denied
    unobserved transduction_rejected transition = ineligible transduction_rejected
    unobserved world_execution_failed transition = ineligible world_execution_failed

    -- `NFPFeedbackEvaluator.evaluate`
    unfoldable pub evaluate :
        ExecutionResult Float
        → Option (RecentCausalTransition Float)
        → Float
        → Result (EvaluationResult Float)
    unfolding evaluate_transition make_evaluation
    evaluate execution transition threshold = elim (unobserved execution.status transition) [
      | some (status, detail) ↦ without_evidence status (says detail)
      | none ↦
          evaluate_transition execution (either transition execution.recent_transition) threshold
    ]
