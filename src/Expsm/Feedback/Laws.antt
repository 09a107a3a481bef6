-- ===== src/Expsm/Feedback/Laws.antt =====
-- What an evaluation of clc/expsm/nfp_native_feedback.py says of an executed and observed prediction.
use rnde_m.Patterns.Similarity.{total_difference, scored}
use rnde_m.Prelude.{
  subst, ℕ, ◌<◌, ◌≡◌, refl, sym, ap, ◌∙◌, true, false, none, some, length, arith, ok, Text, codes,
  eq_text_iff, is_blank, Bool-cases, inl, inr, if◌then◌else◌,
}
use rnde_m.Prelude.Floats.{Floats}
use rnde_m.Patterns.Model.{NfpFrame, visual, size, PatternTopology}
use rnde_m.Patterns.Window.{NfpWindow, topology}
use rnde_m.Context.Causal.{RecentCausalTransition}
use rnde_m.Experience.Effects.{ObservedEffect}
use rnde_m.Experience.Effects.Laws.{last_frame-Shares, effect_of, extract_total}
use rnde_m.Experience.Serialized.{modality_value, SerializedObservedEffectV1, FeedbackTargetCore}
use rnde_m.System.State.{SystemState}
use rnde_m.Actuation.Execution.{
  World, ExecutionRequest, ExecutionResult, SelectedExperience, executed_and_observed,
}
use rnde_m.Actuation.Execution.Response.{Response}
use rnde_m.Actuation.Execution.Observation.{Loop}
use rnde_m.Actuation.Execution.Coordinator.{execute}
use rnde_m.Actuation.Execution.Coordinator.Progress.{IsReady, IsTimely}
use rnde_m.Actuation.Execution.Coordinator.Completion.{IsAnswered}
use rnde_m.Actuation.Execution.Coordinator.Readiness.{ended, execute_ends}
use rnde_m.Expsm.Feedback.{
  hit, miss, is_verdict, Prediction, EvaluationResult, has_evidence, make_feedback_evidence,
  make_evaluation, matching_frame,
}
use rnde_m.Expsm.Feedback.Evaluator.{
  eq_effect, compare_predicted, classify, conclude_comparison, evaluate_effect, evaluate_transition,
  evaluate,
}

module _ (F : Floats) where
  open F use {Float, le_f, sub_f, div_f, one_f, two_f, zero_f, from_int}

  -- A prediction for a field of a shape.
  pub record IsPredicted (e : SerializedObservedEffectV1 Float) (p : PatternTopology) : Type 0 where
    pub is_visual : e.modality ≡ codes "visual"
    pub shaped : e.topology ≡ p.shape
    pub sized : length e.delta_values ≡ size p
    pub not_empty : 0 < length e.delta_values

  matching_frame-answered :
      (r : RecentCausalTransition Float) (f : NfpFrame Float)
      → IsAnswered F r f
      → matching_frame (some f) r ≡ some f
  matching_frame-answered r f h = ground (
    arith,
    (eq_text_iff f.frame_id r.action_frame.frame_id).1
        (ap (λ (x : NfpFrame Float). x.frame_id) (sym h.of_action)),
    ap (λ (x : NfpFrame Float). x.active_tick) h.of_action,
    h.observed.at_action,
    h.observed.next_tick,
  )

  -- A verdict with its evidence, by the threshold.
  pub record IsVerdict (threshold : Float) (x : EvaluationResult Float) : Type 0 where
    pub similarity : Float
    pub by_threshold : x.status ≡ (if le_f threshold similarity then hit else miss)
    pub measured : x.effect_similarity ≡ some similarity
    pub evident : has_evidence x.evidence ≡ true

  pub is_verdict-IsVerdict :
      (threshold : Float) (x : EvaluationResult Float)
      → IsVerdict threshold x
      → is_verdict x.status ≡ true
  is_verdict-IsVerdict threshold x h = ground arith

  classify-IsVerdict :
      (p : Prediction Float) (f : NfpFrame Float) (e : ObservedEffect Float)
      (similarity threshold : Float)
      → (x : EvaluationResult Float) × (classify F p f e similarity threshold ≡ ok x)
        × IsVerdict threshold x
  unfolding classify make_feedback_evidence make_evaluation
  classify-IsVerdict p f e similarity threshold = elim (Bool-cases (le_f threshold similarity)) [
    | inl over ↦ rw over (
      _,
      refl,
      record {
        similarity = similarity;
        by_threshold = rw over refl;
        measured = refl;
        evident = refl;
      },
    )
    | inr under ↦ rw under (
      _,
      refl,
      record {
        similarity = similarity;
        by_threshold = rw under refl;
        measured = refl;
        evident = refl;
      },
    )
  ]

  -- Predicted and actual effect have the same structure.
  record Matches (e : SerializedObservedEffectV1 Float) (a : ObservedEffect Float) : Type 0 where
    is_visual : e.modality ≡ codes "visual"
    sees : a.modality ≡ visual
    shaped : e.topology ≡ a.topology.shape
    sized : length e.delta_values ≡ length a.delta_values
    not_empty : 0 < length e.delta_values

  compare_predicted-Matches :
      (e : SerializedObservedEffectV1 Float) (a : ObservedEffect Float)
      → Matches e a
      → (similarity : Float) × (compare_predicted F e a ≡ ok (scored similarity))
  unfolding compare_predicted
  compare_predicted-Matches e a h = (
    sub_f one_f (
        div_f
          (div_f (total_difference F e.delta_values a.delta_values)
            (from_int (length e.delta_values)))
          two_f),
    ground (
      arith,
      (eq_text_iff e.modality (modality_value a.modality)).1
          (h.is_visual ∙ ap modality_value (sym h.sees)),
      (eq_text_iff e.topology a.topology.shape).1 h.shaped,
      h.sized,
      h.not_empty,
    ),
  )

  module _ (digest : Text → Text) where
    effect_of-Matches :
        (e : SerializedObservedEffectV1 Float) (r : RecentCausalTransition Float)
        (f : NfpFrame Float)
        → IsAnswered F r f
        → IsPredicted e (topology r.before_sensory_window)
        → Matches e (effect_of F digest r)
    effect_of-Matches e r f h k =
        let shares = last_frame-Shares r.before_sensory_window h.observed.before_window in
        let same_shape = ap (λ (p : PatternTopology). p.shape) (sym shares.same_topology) in
        record {
          is_visual = k.is_visual;
          sees = shares.same_modality ∙ h.observed.before_external.is_visual;
          shaped = k.shaped ∙ same_shape;
          sized =
              k.sized
              ∙ ap size (sym shares.same_topology)
              ∙ sym (extract_total F digest r h.observed h.before_activated h.after_activated).1;
          not_empty = k.not_empty;
        }

    evaluate_effect-IsVerdict :
        (p : Prediction Float) (f : NfpFrame Float) (r : RecentCausalTransition Float)
        (threshold : Float)
        → IsAnswered F r f
        → IsPredicted p.effect (topology r.before_sensory_window)
        → (x : EvaluationResult Float) × (evaluate_effect F digest p f r threshold ≡ ok x)
          × IsVerdict threshold x
    unfolding evaluate_effect conclude_comparison
    evaluate_effect-IsVerdict p f r threshold h k =
        let actual = effect_of F digest r in
        let extracted =
          (extract_total F digest r h.observed h.before_activated h.after_activated).0 in
        let (similarity, compared) =
          compare_predicted-Matches p.effect actual (effect_of-Matches p.effect r f h k) in
        let (x, classified, verdict) = classify-IsVerdict p f actual similarity threshold in
        (x, ground (arith, extracted, compared, classified), verdict)

    -- The target that the selected experience was taken from, as the evaluator accepts it.
    pub record IsTargeted (x : SelectedExperience Float) (core : FeedbackTargetCore Float)
        : Type 0 where
      pub targeted : x.target_core ≡ some core
      pub same_effect : eq_effect F x.effect core.effect ≡ true
      pub has_source : is_blank x.source_experience_id ≡ false

    evaluate_ended :
        (x : SelectedExperience Float) (core : FeedbackTargetCore Float)
        (execution : ExecutionResult Float) (f : NfpFrame Float) (r : RecentCausalTransition Float)
        (threshold : Float)
        → IsTargeted x core
        → execution.status ≡ executed_and_observed
        → execution.recent_transition ≡ some r
        → execution.action_frame ≡ some f
        → execution.predicted_effect ≡ some x.effect
        → execution.target_core ≡ x.target_core
        → execution.source_experience_id ≡ some x.source_experience_id
        → IsAnswered F r f
        → evaluate F digest execution none threshold
          ≡ evaluate_effect F digest
              (record { effect = x.effect; core = core; source = x.source_experience_id })
              f
              r
              threshold
    unfolding evaluate evaluate_transition
    evaluate_ended x core execution f r threshold h st rt af pe tc so k =
        ground (arith, matching_frame-answered r f k, h.targeted, h.same_effect, h.has_source)

    module _ (W : World Float) (R : Response F W) where
      -- The loop closed: started in order and asked in time to execute a selected experience whose
      -- predicted effect has the structure of the field and equals that of its target, the coordinator
      -- returns a result that the evaluator classifies. It raises nothing, the classification is HIT
      -- exactly when the measured similarity reaches the threshold and MISS otherwise, and there is
      -- evidence with it.
      pub execute-IsVerdict :
          (request : ExecutionRequest Float) (system : SystemState) (s : Loop F W) (t : ℕ)
          (w : NfpWindow Float) (core : FeedbackTargetCore Float) (threshold : Float)
          → IsReady F W R digest s t w
          → IsTimely F W R digest request system t
          → IsTargeted request.selected core
          → IsPredicted request.selected.effect (topology w)
          → (x : EvaluationResult Float) × (evaluate F digest
                (execute F W digest request system true s).0
                none
                threshold
              ≡ ok x)
            × IsVerdict threshold x
      execute-IsVerdict request system s t w core threshold h k g q =
          let (p, recent, detail, after, r, answered, before, ready) =
            execute_ends F W R digest request system s t w h k in
          let prediction : Prediction Float = record {
            effect = request.selected.effect;
            core = core;
            source = request.selected.source_experience_id;
          } in
          let fits : IsPredicted request.selected.effect (topology recent.before_sensory_window) =
            subst (λ v. IsPredicted request.selected.effect (topology v)) (sym before) q in
          let (x, evaluated, verdict) =
            evaluate_effect-IsVerdict prediction p.frame recent threshold answered fits in
          let reached =
            evaluate_ended request.selected core
              (ended F W R digest request.selected p recent detail) p.frame recent threshold g refl
              refl refl refl refl refl answered in
          (x, rw r (reached ∙ evaluated), verdict)
