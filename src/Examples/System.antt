-- ===== src/Examples/System.antt =====
-- Examples for clc/system.
use rnde_m.Prelude.{
  ℕ, ◌≡◌, ◌≢◌, ◌↔◌, refl, ap, true, none, some, List, [], ◌∷◌, arith, Text, codes, eq_text,
}
use rnde_m.System.State.{SystemMode, active, consolidation, ActionIds, ModeIds}
use rnde_m.System.ModeManager.{
  Decision, Manager, run, consider, known_decision, elapsed, decide, enter, set_mode,
}
use rnde_m.System.ModeManager.Steps.{Chain}
use rnde_m.System.ModeManager.Runs.{
  IsWithin, run-Chain, run_limits, run_early, run_all, decision_once,
}
use rnde_m.System.ActionGuard.{guard_allows}
use rnde_m.System.Agreement.{guard-manager_agree}

abbrev actions : ActionIds
actions = record {
  enter_consolidation = codes "a";
  exit_consolidation = codes "b";
  store_memory = codes "c";
  commit_memory_draft = codes "d";
  review_committed_memory_update = codes "e";
  update_committed_expsm = codes "f";
  increase_attention = codes "g";
  wait_more_data = codes "h";
  continue_observation = codes "i";
  inspect_pattern = codes "j";
  generate_more_thought = codes "k";
  reduce_load = codes "l";
  preserve_integrity = codes "m";
}

abbrev first_code : Text → ℕ
first_code [] = 0
first_code (c ∷ s) = c

abbrev modes : ModeIds
modes = record {
  pressure_high = codes "n";
  system_mode_active = codes "o";
  system_mode_consolidation = codes "p";
  system_mode_recovery = codes "q";
}

abbrev manager_in : SystemMode → Manager
manager_in mode = record {
  system = record {
    mode = mode;
    mode_entered_tick = 4;
    last_consolidation_tick = 0;
    consolidation_depth = 0;
  };
  handled_decision_ids = [];
  mode_changes = 0;
}

abbrev decided : Text → Text → Decision
decided id action = record { decision_id = some id; decision_pattern_id = some action }

abbrev decisions : List Decision
decisions = decided (codes "1") (codes "a") ∷ decided (codes "2") (codes "b") ∷ []

run-Chain_example :
    let (changes, end) = run actions modes 9 decisions (manager_in active) in
    Chain 9 active 0 changes end.system.mode end.mode_changes
run-Chain_example = run-Chain actions modes 9 decisions (manager_in active)

run_limits_example :
    let end = (run actions modes 12 [] (manager_in consolidation)).1 in
    IsWithin end.system.mode (elapsed 12 end)
run_limits_example = run_limits actions modes 12 [] (manager_in consolidation)

run_early_example :
    let (changes, end) = run actions modes 6 decisions (manager_in consolidation) in
    (changes ≡ []) × (end.system ≡ (manager_in consolidation).system)
run_early_example =
    run_early actions modes 6 decisions (manager_in consolidation) refl (omega arith)

-- A decision to enter changes the mode.
enters :
    (known_decision actions modes 9 (some (codes "1")) (some (codes "a")) (manager_in active)).0
    ≢ none
unfolding decide enter set_mode eq_text
enters h = absurd (ground arith)

decision_once_example :
    let first =
      known_decision actions modes 9 (some (codes "1")) (some (codes "a")) (manager_in active) in
    let end =
      (consider actions modes 30 decisions
        (run_all actions modes ((9, []) ∷ (20, decisions) ∷ (25, decisions) ∷ []) first.1)).1 in
    known_decision actions modes 30 (some (codes "1")) (some (codes "b")) end ≡ (none, end)
decision_once_example =
    decision_once actions modes 9 49 [] (some (codes "a")) (manager_in active) []
      ((20, decisions) ∷ (25, decisions) ∷ []) 30 decisions (some (codes "b")) enters

guard-manager_agree_example :
    let m = manager_in consolidation in
    ((guard_allows actions (codes "a") m.system 8 ≡ true)
      ↔ ((known_decision actions modes 8 (some (codes "1")) (some (codes "a")) m).0 ≢ none))
    × ((guard_allows actions (codes "b") m.system 8 ≡ true)
        ↔ ((known_decision actions modes 8 (some (codes "1")) (some (codes "b")) m).0 ≢ none))
guard-manager_agree_example =
    guard-manager_agree actions modes 8 49 [] (manager_in consolidation) tt
      (λ h. omega (arith, ap first_code h)) refl
