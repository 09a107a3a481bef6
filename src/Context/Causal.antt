-- ===== src/Context/Causal.antt =====
-- clc/context/causal_transition.py: the validators, and the two transition records with the checks
-- of their constructors. Ticks that are already attributes of a frame or window are naturals.
use rnde_m.Prelude.{
  ℕ, ◌+◌, not, ltb, ◌==◌, any, ℤ, Checked, Result, ok, ◌>>=◌, ◌>>◌, raise_if, non_negative, Text,
  is_blank,
}
use rnde_m.Patterns.Model.{
  NfpFrame, visual, action, external_sensory, action_generated, eq_modality, eq_origin, eq_topology,
}
use rnde_m.Patterns.Window.{NfpWindow, frames, modality, topology, end_tick}

-- `value < 0` is the one test left: the type excludes what is no integer.
abbrev pub validate_active_tick : ℤ → Result ℕ
validate_active_tick value = non_negative value "active tick must be >= 0"

module _ {V : Type 0} where
  unfoldable pub validate_external_sensory_window : NfpWindow V → Checked
  validate_external_sensory_window w = do
    raise_if (not (eq_modality (modality w) visual)) "window modality must be VISUAL"
    raise_if (any (λ (f : NfpFrame V). not (eq_origin f.origin external_sensory)) (frames w))
        "all window frames must be EXTERNAL_SENSORY"

  unfoldable pub validate_action_frame : NfpFrame V → Checked
  validate_action_frame f = do
    raise_if (not (eq_modality f.modality action)) "action modality must be ACTION"
    raise_if (not (eq_origin f.origin action_generated)) "action origin must be ACTION_GENERATED"

pub record PendingCausalTransition (V : Type 0) : Type 0 where
  pub transition_id : Text
  pub before_sensory_window : NfpWindow V
  pub action_frame : NfpFrame V
  pub action_tick : ℕ
  pub expected_observation_tick : ℕ

pub record RecentCausalTransition (V : Type 0) : Type 0 where
  pub transition_id : Text
  pub before_sensory_window : NfpWindow V
  pub action_frame : NfpFrame V
  pub after_sensory_window : NfpWindow V
  pub action_tick : ℕ
  pub observation_tick : ℕ

module _ {V : Type 0} where
  unfoldable pub make_pending :
      Text → NfpWindow V → NfpFrame V → ℤ → ℤ → Result (PendingCausalTransition V)
  make_pending id before frame tick expected = do
    raise_if (is_blank id) "transition_id must be non-empty"
    validate_external_sensory_window before
    validate_action_frame frame
    t ← validate_active_tick tick
    e ← validate_active_tick expected
    raise_if (not (frame.active_tick == t)) "action_tick must equal action frame tick"
    raise_if (not (e == t + 1)) "expected observation tick must equal action_tick + 1"
    raise_if (ltb t (end_tick before)) "before window must not end after the action"
    ok (record {
      transition_id = id;
      before_sensory_window = before;
      action_frame = frame;
      action_tick = t;
      expected_observation_tick = e;
    })

  unfoldable pub make_recent :
      Text → NfpWindow V → NfpFrame V → NfpWindow V → ℤ → ℤ → Result (RecentCausalTransition V)
  make_recent id before frame after tick observation = do
    p ← make_pending id before frame tick observation
    validate_external_sensory_window after
    raise_if (not (end_tick after == p.expected_observation_tick))
        "observation_tick must equal after window end_tick"
    raise_if (not (eq_topology (topology before) (topology after)))
        "before and after visual topologies must match"
    ok (record {
      transition_id = id;
      before_sensory_window = before;
      action_frame = frame;
      after_sensory_window = after;
      action_tick = p.action_tick;
      observation_tick = p.expected_observation_tick;
    })
