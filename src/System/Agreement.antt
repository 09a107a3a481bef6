-- ===== src/System/Agreement.antt =====
-- The guard and the manager together: the guard lets a mode action through exactly when the manager
-- would act on its decision.
use rnde_m.Prelude.{
  ℕ, ◌≡◌, ◌≢◌, ◌↔◌, true, false, some, ◌∷◌, arith, Text, eq_text_iff, eq_text_refl, none,
}
use rnde_m.System.State.{SystemMode, active, consolidation, recovery, other, ActionIds, ModeIds}
use rnde_m.System.ModeManager.{Manager, decide, known_decision, is_handled, enter, exit, set_mode}
use rnde_m.System.ActionGuard.{guard_allows}

-- One of the three modes that the manager sets.
abbrev pub IsKnown : SystemMode → Type 0
IsKnown active = Unit
IsKnown consolidation = Unit
IsKnown recovery = Unit
IsKnown (other name) = ⊥

module _ (a : ActionIds) (ids : ModeIds) where
  -- In a known mode, with different ids for the two mode actions: for a decision not yet handled,
  -- the guard allows entering (leaving) the consolidation at a tick exactly when the manager, given
  -- a decision for that action at that tick, makes a mode change.
  pub guard-manager_agree :
      (tick c : ℕ) (id : Text) (m : Manager)
      → IsKnown m.system.mode
      → a.enter_consolidation ≢ a.exit_consolidation
      → is_handled (c ∷ id) m ≡ false
      → ((guard_allows a a.enter_consolidation m.system tick ≡ true)
          ↔ ((known_decision a ids tick (some (c ∷ id)) (some a.enter_consolidation) m).0 ≢ none))
        × ((guard_allows a a.exit_consolidation m.system tick ≡ true)
            ↔ ((known_decision a ids tick (some (c ∷ id)) (some a.exit_consolidation) m).0 ≢ none))
  unfolding guard_allows decide enter exit set_mode
  guard-manager_agree tick c id m k differ new = ground (
    arith,
    eq_text_refl a.enter_consolidation,
    eq_text_refl a.exit_consolidation,
    eq_text_iff a.enter_consolidation a.exit_consolidation,
    eq_text_iff a.exit_consolidation a.enter_consolidation,
  )
