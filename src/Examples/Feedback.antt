-- ===== src/Examples/Feedback.antt =====
-- Examples for clc/expsm/nfp_native_feedback.py.
use rnde_m.Prelude.{◌≡◌, refl, true, none, [], ◌∷◌, ok, pos, ℤ, arith, strip, is_space, eq_text}
use rnde_m.Patterns.Model.{size, product}
use rnde_m.Actuation.Execution.{is_executed}
use rnde_m.Actuation.Execution.Coordinator.{execute}
use rnde_m.Expsm.Feedback.{EvaluationResult}
use rnde_m.Expsm.Feedback.Evaluator.{eq_effect, evaluate}
use rnde_m.Expsm.Feedback.Laws.{
  IsPredicted, IsTargeted, IsVerdict, is_verdict-IsVerdict, execute-IsVerdict,
}
use rnde_m.Expsm.Feedback.Soundness.{Founded, evaluate-Founded}
use rnde_m.Examples.Execution.{
  expected, core, right, request_at, synthetic, answers, awake, digest, start, first_window,
  start-IsReady, request-IsTimely,
}
use rnde_m.Examples.Thousandths.{thousandths}

expected-IsPredicted : IsPredicted thousandths expected (record { shape = 1 ∷ 3 ∷ [] })
unfolding size product
expected-IsPredicted = record {
  is_visual = refl;
  shaped = refl;
  sized = refl;
  not_empty = omega arith;
}

right-IsTargeted : IsTargeted thousandths digest right core
unfolding eq_effect eq_text strip is_space
right-IsTargeted = record { targeted = refl; same_effect = refl; has_source = refl }

execute-IsVerdict_example :
    (x : EvaluationResult ℤ) × (evaluate thousandths digest
        (execute thousandths synthetic digest (request_at 0) awake true start).0
        none
        (pos 900)
      ≡ ok x)
    × IsVerdict thousandths (pos 900) x
execute-IsVerdict_example =
    execute-IsVerdict thousandths digest synthetic answers (request_at 0) awake start 0 first_window
      core (pos 900) start-IsReady (request-IsTimely 0) right-IsTargeted expected-IsPredicted

-- The evaluation of that execution.
evaluated :
    (x : EvaluationResult ℤ) × (evaluate thousandths digest
        (execute thousandths synthetic digest (request_at 0) awake true start).0
        none
        (pos 900)
      ≡ ok x)
    × IsVerdict thousandths (pos 900) x
evaluated =
    execute-IsVerdict thousandths digest synthetic answers (request_at 0) awake start 0 first_window
      core (pos 900) start-IsReady (request-IsTimely 0) right-IsTargeted expected-IsPredicted

evaluate-Founded_example :
    let r = (execute thousandths synthetic digest (request_at 0) awake true start).0 in
    (is_executed r.status ≡ true) × Founded thousandths digest r none
evaluate-Founded_example =
    evaluate-Founded thousandths digest
      (execute thousandths synthetic digest (request_at 0) awake true start).0 none (pos 900)
      evaluated.0 evaluated.1 (is_verdict-IsVerdict thousandths (pos 900) evaluated.0 evaluated.2)
