-- ===== src/System/ActionGuard.antt =====
-- `ModeActionGuard` of clc/system/mode_action_guard.py: its decision on an action in each mode.
use rnde_m.Prelude.{
  ℕ, ◌-◌, String, Bool, true, false, List, [], ◌∷◌, ltb, ◌==◌, any, if◌then◌else◌, Text, eq_text,
}
use rnde_m.Patterns.Model.{NfpFrame}
use rnde_m.System.State.{
  SystemMode, active, consolidation, recovery, other, is_active, SystemState, ActionIds,
}

-- The triple that `_decision` returns; the factor in hundredths.
pub record Verdict : Type 0 where
  pub is_allowed : Bool
  pub reason : String
  pub factor : ℕ

abbrev pub allow : String → ℕ → Verdict
allow why factor = record { is_allowed = true; reason = why; factor = factor }

abbrev pub block : String → Verdict
block why = record { is_allowed = false; reason = why; factor = 0 }

module _ (a : ActionIds) where
  abbrev pub internal_actions : List Text
  internal_actions =
      a.store_memory ∷ a.commit_memory_draft ∷ a.review_committed_memory_update
      ∷ a.update_committed_expsm ∷ a.inspect_pattern ∷ a.generate_more_thought ∷ a.reduce_load
      ∷ a.preserve_integrity ∷ []

  abbrev pub attention_actions : List Text
  attention_actions = a.increase_attention ∷ a.wait_more_data ∷ a.continue_observation ∷ []

  -- `_decision` by mode, with `elapsed = tick - mode_entered_tick`
  unfoldable pub decision_in : SystemMode → Text → ℕ → Verdict
  decision_in active id elapsed =
      if eq_text id a.exit_consolidation
      then block "not_in_consolidation"
      else allow "active_mode_allowed" 100
  decision_in consolidation id elapsed =
      if eq_text id a.enter_consolidation
      then block "already_in_consolidation"
      else if eq_text id a.exit_consolidation
      then (if ltb elapsed 3
          then block "minimum_consolidation_duration"
          else allow "consolidation_exit_allowed" 100)
      else if any (eq_text id) internal_actions
      then allow "consolidation_internal_allowed" 100
      else if any (eq_text id) attention_actions
      then allow "consolidation_mode_low_external_attention" 35
      else block "consolidation_mode_blocked"
  decision_in recovery id elapsed =
      if any (eq_text id) (a.enter_consolidation ∷ a.exit_consolidation ∷ [])
      then block "recovery_mode_transition_block"
      else allow "recovery_mode_low_priority" 45
  decision_in (other name) id elapsed = allow "unknown_mode_default_allowed" 70

  -- `_decision` and `is_allowed`
  unfoldable pub guard_decision : Text → SystemState → ℕ → Verdict
  unfolding decision_in
  guard_decision id s tick = decision_in s.mode id (tick - s.mode_entered_tick)

  unfoldable pub guard_allows : Text → SystemState → ℕ → Bool
  unfolding guard_decision
  guard_allows id s tick = (guard_decision id s tick).is_allowed

-- `is_native_action_allowed`, given the action frame of the intent
unfoldable pub is_native_action_allowed : {V : Type 0} → NfpFrame V → SystemState → ℕ → Bool
is_native_action_allowed f s tick = if f.active_tick == tick then is_active s.mode else false
