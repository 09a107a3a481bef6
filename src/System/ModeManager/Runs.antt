-- ===== src/System/ModeManager/Runs.antt =====
-- A whole run of the manager at a tick.
use rnde_m.Prelude.{
  ℕ, ◌<◌, ◌≡◌, refl, ap, ◌∙◌, true, Option, none, some, List, [], ◌∷◌, arith, Text, eq_text_refl,
  ◌≢◌,
}
use rnde_m.System.State.{
  SystemMode, active, consolidation, recovery, other, ActionIds, ModeIds, SystemState,
}
use rnde_m.System.ModeManager.{
  Manager, Decision, set_mode, enter, exit, decide, known_decision, consider, listed,
  limit_consolidation, limit_recovery, is_handled, elapsed, run,
}
use rnde_m.System.ModeManager.Steps.{
  Chain, Chain-append, ChainStep, decide-Chain, limit_consolidation-Chain, limit_recovery-Chain,
}

-- The age of a mode that a run leaves.
abbrev pub IsWithin : SystemMode → ℕ → Type 0
IsWithin active age = Unit
IsWithin consolidation age = age < 6
IsWithin recovery age = age < 2
IsWithin (other name) age = Unit

module _ (a : ActionIds) (ids : ModeIds) where
  known_decision-Chain :
      (tick : ℕ) (id pattern : Option Text) (m : Manager)
      → ChainStep tick m (known_decision a ids tick id pattern m)
  known_decision-Chain tick none pattern m = (refl, refl)
  known_decision-Chain tick (some []) pattern m = (refl, refl)
  known_decision-Chain tick (some (c ∷ id)) pattern m =
      ground (arith, decide-Chain a ids tick (c ∷ id) pattern m)

  consider-Chain :
      (tick : ℕ) (ds : List Decision) (m : Manager)
      → let (changes, end) = consider a ids tick ds m in
        Chain tick m.system.mode m.mode_changes changes end.system.mode end.mode_changes
  unfolding consider
  consider-Chain tick [] m = (refl, refl)
  consider-Chain tick (d ∷ ds) m =
      let (change, m') = known_decision a ids tick d.decision_id d.decision_pattern_id m in
      Chain-append tick _ _ _ _ _ _ (listed change) _
        (known_decision-Chain tick d.decision_id d.decision_pattern_id m)
        (consider-Chain tick ds m')

  -- In a run at a tick, whatever the decisions, the changes lead one after the other from the mode
  -- before to the mode after, each from active to consolidation, from there to recovery, or from
  -- there to active; they bear the tick and consecutive numbers.
  pub run-Chain :
      (tick : ℕ) (ds : List Decision) (m : Manager)
      → let (changes, end) = run a ids tick ds m in
        Chain tick m.system.mode m.mode_changes changes end.system.mode end.mode_changes
  unfolding run
  run-Chain tick ds m =
      let m₁ = (consider a ids tick ds m).1 in
      let m₂ = (limit_consolidation ids tick m₁).1 in
      Chain-append tick _ _ _ _ _ _ (consider a ids tick ds m).0 _ (consider-Chain tick ds m) (
        Chain-append tick _ _ _ _ _ _ (listed (limit_consolidation ids tick m₁).0) _
          (limit_consolidation-Chain ids tick m₁) (limit_recovery-Chain tick m₂))

  -- After a run at a tick a consolidation is less than six ticks old, and a recovery less than two.
  pub run_limits :
      (tick : ℕ) (ds : List Decision) (m : Manager)
      → let end = (run a ids tick ds m).1 in IsWithin end.system.mode (elapsed tick end)
  unfolding run limit_consolidation limit_recovery exit set_mode
  run_limits tick ds m = ground arith

  decide_early :
      (tick : ℕ) (id : Text) (pattern : Option Text) (m : Manager)
      → m.system.mode ≡ consolidation
      → elapsed tick m < 3
      → let (change, end) = decide a ids tick id pattern m in
        (change ≡ none) × (end.system ≡ m.system)
  unfolding decide
  decide_early tick id pattern m h early = ground arith

  known_decision_early :
      (tick : ℕ) (id pattern : Option Text) (m : Manager)
      → m.system.mode ≡ consolidation
      → elapsed tick m < 3
      → let (change, end) = known_decision a ids tick id pattern m in
        (change ≡ none) × (end.system ≡ m.system)
  known_decision_early tick none pattern m h early = (refl, refl)
  known_decision_early tick (some []) pattern m h early = (refl, refl)
  known_decision_early tick (some (c ∷ id)) pattern m h early =
      ground (arith, decide_early tick (c ∷ id) pattern m h early)

  consider_early :
      (tick : ℕ) (ds : List Decision) (m : Manager)
      → m.system.mode ≡ consolidation
      → elapsed tick m < 3
      → let (changes, end) = consider a ids tick ds m in (changes ≡ []) × (end.system ≡ m.system)
  unfolding consider
  consider_early tick [] m h early = (refl, refl)
  consider_early tick (d ∷ ds) m h early =
      let (change, m') = known_decision a ids tick d.decision_id d.decision_pattern_id m in
      let here = known_decision_early tick d.decision_id d.decision_pattern_id m h early in
      let same = ap (λ (s : SystemState). s.mode) here.1 in
      let entered = ap (λ (s : SystemState). s.mode_entered_tick) here.1 in
      let rest = consider_early tick ds m' (same ∙ h) (omega arith) in
      (rw (here.0, rest.0) refl, rest.1 ∙ here.1)

  -- A consolidation that is less than three ticks old is left by no decision and no limit: the run
  -- makes no change and the system state stays as it was.
  pub run_early :
      (tick : ℕ) (ds : List Decision) (m : Manager)
      → m.system.mode ≡ consolidation
      → elapsed tick m < 3
      → let (changes, end) = run a ids tick ds m in (changes ≡ []) × (end.system ≡ m.system)
  unfolding run limit_consolidation limit_recovery
  run_early tick ds m h early = ground (arith, consider_early tick ds m h early)

  is_handled-decide :
      (id k : Text) (tick : ℕ) (pattern : Option Text) (m : Manager)
      → is_handled k m ≡ true
      → is_handled k (decide a ids tick id pattern m).1 ≡ true
  unfolding decide enter exit set_mode
  is_handled-decide id k tick pattern m h = ground arith

  is_handled-known :
      (k : Text) (tick : ℕ) (id pattern : Option Text) (m : Manager)
      → is_handled k m ≡ true
      → is_handled k (known_decision a ids tick id pattern m).1 ≡ true
  is_handled-known k tick none pattern m h = h
  is_handled-known k tick (some []) pattern m h = h
  is_handled-known k tick (some (c ∷ id)) pattern m h =
      ground (arith, is_handled-decide (c ∷ id) k tick pattern m h)

  is_handled-consider :
      (k : Text) (tick : ℕ) (ds : List Decision) (m : Manager)
      → is_handled k m ≡ true
      → is_handled k (consider a ids tick ds m).1 ≡ true
  unfolding consider
  is_handled-consider k tick [] m h = h
  is_handled-consider k tick (d ∷ ds) m h =
      is_handled-consider k tick ds
        (known_decision a ids tick d.decision_id d.decision_pattern_id m).1
        (is_handled-known k tick d.decision_id d.decision_pattern_id m h)

  is_handled-run :
      (k : Text) (tick : ℕ) (ds : List Decision) (m : Manager)
      → is_handled k m ≡ true
      → is_handled k (run a ids tick ds m).1 ≡ true
  unfolding run limit_consolidation limit_recovery exit set_mode
  is_handled-run k tick ds m h = ground (arith, is_handled-consider k tick ds m h)

  handled_of_change :
      (tick : ℕ) (id : Text) (pattern : Option Text) (m : Manager)
      → (decide a ids tick id pattern m).0 ≢ none
      → is_handled id (decide a ids tick id pattern m).1 ≡ true
  unfolding decide enter exit set_mode
  handled_of_change tick id pattern m h = ground (arith, eq_text_refl id)

  known_of_change :
      (tick : ℕ) (c : ℕ) (id : Text) (pattern : Option Text) (m : Manager)
      → (known_decision a ids tick (some (c ∷ id)) pattern m).0 ≢ none
      → is_handled (c ∷ id) (known_decision a ids tick (some (c ∷ id)) pattern m).1 ≡ true
  known_of_change tick c id pattern m h = ground (arith, handled_of_change tick (c ∷ id) pattern m)

  known_decision_handled :
      (tick : ℕ) (c : ℕ) (id : Text) (pattern : Option Text) (m : Manager)
      → is_handled (c ∷ id) m ≡ true
      → known_decision a ids tick (some (c ∷ id)) pattern m ≡ (none, m)
  known_decision_handled tick c id pattern m h = rw h refl

  -- Runs one after the other, each at its tick and with its decisions.
  unfoldable pub run_all : List (ℕ × List Decision) → Manager → Manager
  run_all [] m = m
  run_all ((tick, ds) ∷ runs) m = run_all runs (run a ids tick ds m).1

  is_handled-run_all :
      (k : Text) (runs : List (ℕ × List Decision)) (m : Manager)
      → is_handled k m ≡ true
      → is_handled k (run_all runs m) ≡ true
  unfolding run_all
  is_handled-run_all k [] m h = h
  is_handled-run_all k ((tick, ds) ∷ runs) m h =
      is_handled-run_all k runs (run a ids tick ds m).1 (is_handled-run k tick ds m h)

  -- A decision that once changed the mode is never acted on again: after it come the rest of its run
  -- and any number of further runs, at any ticks and with any decisions, and any decisions of the run
  -- in which its id comes up again; then it is passed over with nothing changed, whatever action is
  -- named with it.
  pub decision_once :
      (tick : ℕ) (c : ℕ) (id : Text) (pattern : Option Text) (m : Manager) (rest : List Decision)
      (runs : List (ℕ × List Decision)) (last : ℕ) (earlier : List Decision) (named : Option Text)
      → (known_decision a ids tick (some (c ∷ id)) pattern m).0 ≢ none
      → let acted = (known_decision a ids tick (some (c ∷ id)) pattern m).1 in
        let end = (consider a ids last earlier (run_all ((tick, rest) ∷ runs) acted)).1 in
        known_decision a ids last (some (c ∷ id)) named end ≡ (none, end)
  decision_once tick c id pattern m rest runs last earlier named h =
      let acted = (known_decision a ids tick (some (c ∷ id)) pattern m).1 in
      let later = run_all ((tick, rest) ∷ runs) acted in
      let still =
        is_handled-run_all (c ∷ id) ((tick, rest) ∷ runs) acted
          (known_of_change tick c id pattern m h) in
      known_decision_handled last c id named (consider a ids last earlier later).1
        (is_handled-consider (c ∷ id) last earlier later still)
