-- ===== src/Expsm/Feedback/Soundness.antt =====
-- When the evaluator of clc/expsm/nfp_native_feedback.py gives evidence at all.
use rnde_m.Prelude.{
  ◌+◌, ◌≡◌, true, Option, none, some, arith, ok, Option-cases, inl, inr, Text, eq_text_iff,
}
use rnde_m.Prelude.Floats.{Floats}
use rnde_m.Patterns.Model.{NfpFrame}
use rnde_m.Context.Causal.{RecentCausalTransition}
use rnde_m.Actuation.Execution.{ExecutionResult, is_executed}
use rnde_m.Expsm.Feedback.{EvaluationResult, is_verdict, make_evaluation, matching_frame, either}
use rnde_m.Expsm.Feedback.Evaluator.{evaluate_transition, evaluate}

module _ (F : Floats) (digest : Text → Text) where
  open F use {Float}

  matching_frame-some :
      (o : Option (NfpFrame Float)) (t : RecentCausalTransition Float) (f : NfpFrame Float)
      → matching_frame o t ≡ some f
      → (o ≡ some f)
        × (f.frame_id ≡ t.action_frame.frame_id)
        × (t.action_tick ≡ f.active_tick)
        × (t.observation_tick ≡ f.active_tick + 1)
  matching_frame-some none t f h = absurd (cc)
  matching_frame-some (some g) t f h =
      ground (arith, eq_text_iff g.frame_id t.action_frame.frame_id)

  -- What a verdict rests on: an executed action, whose frame is the one of a completed transition.
  pub record Founded (execution : ExecutionResult Float)
      (given : Option (RecentCausalTransition Float)) : Type 0 where
    pub transition : RecentCausalTransition Float
    pub frame : NfpFrame Float
    pub is_given : either given execution.recent_transition ≡ some transition
    pub is_action : execution.action_frame ≡ some frame
    pub same_id : frame.frame_id ≡ transition.action_frame.frame_id
    pub at_action : transition.action_tick ≡ frame.active_tick
    pub next_tick : transition.observation_tick ≡ frame.active_tick + 1

  transition-Founded :
      (execution : ExecutionResult Float) (given : Option (RecentCausalTransition Float))
      (threshold : Float) (x : EvaluationResult Float)
      → evaluate_transition F digest execution (either given execution.recent_transition) threshold
        ≡ ok x
      → is_verdict x.status ≡ true
      → Founded execution given
  unfolding evaluate_transition make_evaluation
  transition-Founded execution given threshold x h v =
      elim (Option-cases (either given execution.recent_transition)) [
        | inl absent ↦ absurd (ground arith)
        | inr (t, present) ↦ elim (Option-cases (matching_frame execution.action_frame t)) [
          | inl unmatched ↦ absurd (ground arith)
          | inr (f, matched) ↦
              let (action, id, tick, next) =
                matching_frame-some execution.action_frame t f matched in
              record {
                transition = t;
                frame = f;
                is_given = present;
                is_action = action;
                same_id = id;
                at_action = tick;
                next_tick = next;
              }
        ]
      ]

  -- A HIT or MISS is given only for an action that was executed, and whose frame is the action of the
  -- completed transition that was given or, failing that, is in the result: same id, same tick, and
  -- observed one tick later.
  pub evaluate-Founded :
      (execution : ExecutionResult Float) (given : Option (RecentCausalTransition Float))
      (threshold : Float) (x : EvaluationResult Float)
      → evaluate F digest execution given threshold ≡ ok x
      → is_verdict x.status ≡ true
      → (is_executed execution.status ≡ true) × Founded execution given
  unfolding evaluate make_evaluation
  evaluate-Founded execution given threshold x h v =
      (ground arith, transition-Founded execution given threshold x (ground arith) v)
