-- ===== src/Context/Causality.antt =====
-- What the validators and the constructor of a pending transition accept, stated without them.
use rnde_m.Prelude.{
  ◌+◌, ◌≤◌, ◌≡◌, ◌↔◌, false, not, List, [], ◌∷◌, arith, any, All, pos, ok, is_blank,
}
use rnde_m.Patterns.Model.{
  NfpFrame, visual, action, external_sensory, action_generated, eq_modality_iff, eq_origin,
  eq_origin_iff,
}
use rnde_m.Patterns.Window.{NfpWindow, frames, modality, end_tick}
use rnde_m.Context.Causal.{
  PendingCausalTransition, validate_external_sensory_window, validate_action_frame, make_pending,
}

module _ {V : Type 0} where
  pub record IsExternal (w : NfpWindow V) : Type 0 where
    pub is_visual : modality w ≡ visual
    pub from_sensors : All (λ (f : NfpFrame V). f.origin ≡ external_sensory) (frames w)

  pub record IsAction (f : NfpFrame V) : Type 0 where
    pub is_action : f.modality ≡ action
    pub generated : f.origin ≡ action_generated

  foreign_iff :
      (fs : List (NfpFrame V))
      → (any (λ (f : NfpFrame V). not (eq_origin f.origin external_sensory)) fs ≡ false)
        ↔ All (λ (f : NfpFrame V). f.origin ≡ external_sensory) fs
  foreign_iff [] = ground arith
  foreign_iff (f ∷ fs) = ground (arith, eq_origin_iff f.origin external_sensory, foreign_iff fs)

  pub validate_external_sensory_window_iff :
      (w : NfpWindow V) → (validate_external_sensory_window w ≡ ok tt) ↔ IsExternal w
  unfolding validate_external_sensory_window
  validate_external_sensory_window_iff w =
      ground (arith, eq_modality_iff (modality w) visual, foreign_iff (frames w))

  pub validate_action_frame_iff : (f : NfpFrame V) → (validate_action_frame f ≡ ok tt) ↔ IsAction f
  unfolding validate_action_frame
  validate_action_frame_iff f =
      ground (arith, eq_modality_iff f.modality action, eq_origin_iff f.origin action_generated)

  -- What a pending transition's constructor guarantees.
  pub record IsPending (p : PendingCausalTransition V) : Type 0 where
    pub named : is_blank p.transition_id ≡ false
    pub before_external : IsExternal p.before_sensory_window
    pub action_valid : IsAction p.action_frame
    pub at_action : p.action_frame.active_tick ≡ p.action_tick
    pub next_tick : p.expected_observation_tick ≡ p.action_tick + 1
    pub before_action : end_tick p.before_sensory_window ≤ p.action_tick

  -- The constructor returns a transition exactly when the record of its arguments is well formed,
  -- and then it returns that record.
  pub make_pending_iff :
      (p : PendingCausalTransition V)
      → (make_pending p.transition_id p.before_sensory_window p.action_frame
            (pos p.action_tick)
            (pos p.expected_observation_tick)
          ≡ ok p)
        ↔ IsPending p
  unfolding make_pending
  make_pending_iff p = ground (
    arith,
    validate_external_sensory_window_iff p.before_sensory_window,
    validate_action_frame_iff p.action_frame,
  )
