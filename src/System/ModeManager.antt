-- ===== src/System/ModeManager.antt =====
-- clc/system/system_mode_manager.py. The id generator is the number of mode changes so far: the
-- manager is the only caller of its prefix `mode_change`; the id of the operation that wraps a
-- change comes from a counter shared with other modules and is left out.
pub mod Steps
pub mod Runs
use rnde_m.Prelude.{
  ℕ, suc, ◌+◌, ◌-◌, Bool, true, false, ◌||◌, ◌&&◌, Option, none, some, List, [], ◌∷◌, ◌++◌, leb,
  any, if◌then◌else◌, Text, eq_text,
}
use rnde_m.System.State.{
  SystemMode, active, consolidation, recovery, other, is_active, is_consolidation, is_recovery,
  SystemState, ActionIds, ModeIds,
}

abbrev pub min_consolidation_ticks : ℕ
min_consolidation_ticks = 3

abbrev pub max_consolidation_ticks : ℕ
max_consolidation_ticks = 6

abbrev pub recovery_ticks : ℕ
recovery_ticks = 2

pub data Reason : Type 0 where
  consolidation_pressure decision max_duration recovery_complete : Reason

-- The payload of a `SYSTEM_MODE_CHANGE` operation, with its tick; `mode_pattern_id`, the pattern of
-- the mode `to_mode`, is left out.
pub record ModeChange : Type 0 where
  pub mode_change_number : ℕ
  pub from_mode : SystemMode
  pub to_mode : SystemMode
  pub reason : Reason
  pub reason_patterns : List Text
  pub activation : ℕ
  pub ttl : ℕ
  pub tick : ℕ

-- One of `memory.get_recent_decisions(8)`, with the two keys that are read.
pub record Decision : Type 0 where
  pub decision_id : Option Text
  pub decision_pattern_id : Option Text

pub record Manager : Type 0 where
  pub system : SystemState
  pub handled_decision_ids : List Text
  pub mode_changes : ℕ

abbrev pub same_mode : SystemMode → SystemMode → Bool
same_mode a active = is_active a
same_mode a consolidation = is_consolidation a
same_mode a recovery = is_recovery a
same_mode (other a) (other b) = eq_text a b
same_mode _ (other b) = false

abbrev depth_in : SystemMode → ℕ → ℕ
depth_in active depth = 0
depth_in consolidation depth = 100
depth_in recovery depth = depth
depth_in (other name) depth = depth

-- `_set_mode`
unfoldable pub set_mode :
    ℕ → SystemMode → Reason → List Text → ℕ → ℕ → Manager → Option ModeChange × Manager
set_mode tick to why patterns activation ttl m = if same_mode m.system.mode to then (none, m) else (
  some (record {
    mode_change_number = m.mode_changes + 1;
    from_mode = m.system.mode;
    to_mode = to;
    reason = why;
    reason_patterns = patterns;
    activation = activation;
    ttl = ttl;
    tick = tick;
  }),
  record m {
    system = record m.system {
      mode = to;
      mode_entered_tick = tick;
      consolidation_depth = depth_in to m.system.consolidation_depth;
    };
    mode_changes = m.mode_changes + 1;
  },
)

abbrev pub elapsed : ℕ → Manager → ℕ
elapsed tick m = tick - m.system.mode_entered_tick

abbrev pub is_handled : Text → Manager → Bool
is_handled id m = any (eq_text id) m.handled_decision_ids

abbrev pub handle : Text → Manager → Manager
handle id m = record m { handled_decision_ids = id ∷ m.handled_decision_ids }

-- `action_pattern_id == action`, where the left side may be missing
abbrev pub names : Option Text → Text → Bool
names none action = false
names (some id) action = eq_text id action

abbrev pub listed : Option ModeChange → List ModeChange
listed none = []
listed (some change) = change ∷ []

-- The end of a recovery, at the end of `run`.
unfoldable pub limit_recovery : ℕ → Manager → Option ModeChange × Manager
unfolding set_mode
limit_recovery tick m =
    if is_recovery m.system.mode && leb recovery_ticks (elapsed tick m)
    then set_mode tick active recovery_complete [] 85 4 m
    else (none, m)

module _ (ids : ModeIds) where
  -- `_enter_consolidation` and `_exit_consolidation`
  unfoldable pub enter : ℕ → Manager → Option ModeChange × Manager
  unfolding set_mode
  enter tick m = set_mode tick consolidation consolidation_pressure (ids.pressure_high ∷ []) 100 8 m

  unfoldable pub exit : ℕ → Reason → Manager → Option ModeChange × Manager
  unfolding set_mode
  exit tick why m = set_mode tick recovery why (ids.system_mode_consolidation ∷ []) 90 5 (record m {
    system = record m.system { last_consolidation_tick = tick; consolidation_depth = 35 };
  })

  -- The end of a consolidation that has lasted too long.
  unfoldable pub limit_consolidation : ℕ → Manager → Option ModeChange × Manager
  unfolding exit
  limit_consolidation tick m =
      if is_consolidation m.system.mode && leb max_consolidation_ticks (elapsed tick m)
      then exit tick max_duration m
      else (none, m)

module _ (a : ActionIds) (ids : ModeIds) where
  -- The branches for a decision whose id is new.
  unfoldable pub decide : ℕ → Text → Option Text → Manager → Option ModeChange × Manager
  unfolding enter exit
  decide tick id pattern m =
      if names pattern a.enter_consolidation && is_active m.system.mode
      then enter ids tick (handle id m)
      else if names pattern a.enter_consolidation
      then (none, handle id m)
      else if names pattern a.exit_consolidation && is_consolidation m.system.mode
      then (if leb min_consolidation_ticks (elapsed tick m)
          then exit ids tick decision (handle id m)
          else (none, m))
      else if names pattern a.exit_consolidation
      then (none, handle id m)
      else (none, m)

  -- One round of the loop: `if not decision_id or decision_id in handled: continue`.
  abbrev pub known_decision : ℕ → Option Text → Option Text → Manager → Option ModeChange × Manager
  known_decision tick none pattern m = (none, m)
  known_decision tick (some []) pattern m = (none, m)
  known_decision tick (some (c ∷ id)) pattern m =
      if is_handled (c ∷ id) m then (none, m) else decide tick (c ∷ id) pattern m

  unfoldable pub consider : ℕ → List Decision → Manager → List ModeChange × Manager
  consider tick [] m = ([], m)
  consider tick (d ∷ ds) m =
      let (change, m') = known_decision tick d.decision_id d.decision_pattern_id m in
      let (rest, end) = consider tick ds m' in (listed change ++ rest, end)

  unfoldable pub run : ℕ → List Decision → Manager → List ModeChange × Manager
  unfolding consider limit_consolidation limit_recovery
  run tick ds m =
      let (changes, m₁) = consider tick ds m in
      let (limited, m₂) = limit_consolidation ids tick m₁ in
      let (ended, m₃) = limit_recovery tick m₂ in (changes ++ (listed limited ++ listed ended), m₃)
