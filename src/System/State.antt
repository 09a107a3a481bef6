-- ===== src/System/State.antt =====
-- clc/system/system_state.py, and the names of the actions and modes that the registry resolves.
-- A depth, an activation and a factor are literals of the source, kept in hundredths.
use rnde_m.Prelude.{ℕ, Bool, true, false, Text}

pub data SystemMode : Type 0 where
  active consolidation recovery : SystemMode
  other : Text → SystemMode

abbrev pub is_active : SystemMode → Bool
is_active active = true
is_active consolidation = false
is_active recovery = false
is_active (other name) = false

abbrev pub is_consolidation : SystemMode → Bool
is_consolidation active = false
is_consolidation consolidation = true
is_consolidation recovery = false
is_consolidation (other name) = false

abbrev pub is_recovery : SystemMode → Bool
is_recovery active = false
is_recovery consolidation = false
is_recovery recovery = true
is_recovery (other name) = false

pub record SystemState : Type 0 where
  pub mode : SystemMode
  pub mode_entered_tick : ℕ
  pub last_consolidation_tick : ℕ
  pub consolidation_depth : ℕ

-- The ids that the pattern registry gives to the names which the system modules resolve.
pub record ActionIds : Type 0 where
  pub enter_consolidation : Text
  pub exit_consolidation : Text
  pub store_memory : Text
  pub commit_memory_draft : Text
  pub review_committed_memory_update : Text
  pub update_committed_expsm : Text
  pub increase_attention : Text
  pub wait_more_data : Text
  pub continue_observation : Text
  pub inspect_pattern : Text
  pub generate_more_thought : Text
  pub reduce_load : Text
  pub preserve_integrity : Text

pub record ModeIds : Type 0 where
  pub pressure_high : Text
  pub system_mode_active : Text
  pub system_mode_consolidation : Text
  pub system_mode_recovery : Text
