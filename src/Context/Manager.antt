-- ===== src/Context/Manager.antt =====
-- The natural-pattern state of `ContextMemoryManager` (clc/context/context_memory_manager.py): the
-- current window and action, at most one pending transition, and the active clock.
pub mod Invariant
pub mod Traces
use rnde_m.Prelude.{
  ℕ, ◌+◌, ◌++◌, not, Option, none, some, ltb, leb, ◌==◌, if◌then◌else◌, ℤ, pos, Checked, Result, ok,
  raised, value_error, raise_if, Text, codes,
}
use rnde_m.Prelude.Decimal.{decimal06}
use rnde_m.Prelude.State.{Method, pure, lift, gets, modify, ◌>>=◌, ◌>>◌}
use rnde_m.Patterns.Model.{NfpFrame}
use rnde_m.Patterns.Window.{NfpWindow, end_tick}
use rnde_m.Context.Causal.{
  PendingCausalTransition, RecentCausalTransition, validate_active_tick,
  validate_external_sensory_window, validate_action_frame, make_pending, make_recent,
}

pub record NfpContext (V : Type 0) : Type 0 where
  pub current_external_sensory_window : Option (NfpWindow V)
  pub current_action_frame : Option (NfpFrame V)
  pub pending_causal_transition : Option (PendingCausalTransition V)
  pub nfp_current_tick : ℕ
  pub next_transition_id : ℕ

-- The attributes that `__init__` sets.
abbrev pub initial : {V : Type 0} → NfpContext V
initial = record {
  current_external_sensory_window = none;
  current_action_frame = none;
  pending_causal_transition = none;
  nfp_current_tick = 0;
  next_transition_id = 1;
}

-- `f"causal_transition:{n:06d}"`
unfoldable pub transition_name : ℕ → Text
transition_name n = codes "causal_transition:" ++ decimal06 n

module _ {V : Type 0} where
  -- `_validate_nfp_tick`, with the tick as the natural that it is once validated
  unfoldable pub validate_nfp_tick : ℤ → Method (NfpContext V) ℕ
  validate_nfp_tick tick = do
    t ← lift (validate_active_tick tick)
    current ← gets (λ s. s.nfp_current_tick)
    lift (raise_if (ltb t current) "active context time must not go backwards")
    pure t

  -- `if pending is not None and window.end_tick == pending.expected_observation_tick`
  unfoldable pub completion :
      Option (PendingCausalTransition V) → NfpWindow V → Result (Option (RecentCausalTransition V))
  completion none w = ok none
  completion (some p) w =
      if end_tick w == p.expected_observation_tick
      then elim (make_recent p.transition_id p.before_sensory_window p.action_frame w
          (pos p.action_tick) (pos (end_tick w))) [ ok r ↦ ok (some r) | raised e ↦ raised e ]
      else ok none

  abbrev clear_pending : NfpContext V → NfpContext V
  clear_pending s = record s { pending_causal_transition = none; current_action_frame = none }

  abbrev clear_due : Option (PendingCausalTransition V) → ℕ → NfpContext V → NfpContext V
  clear_due none tick s = s
  clear_due (some p) tick s = if leb p.expected_observation_tick tick then clear_pending s else s

  unfoldable pub observe_external_sensory_window :
      NfpWindow V → Method (NfpContext V) (Option (RecentCausalTransition V))
  observe_external_sensory_window w = do
    lift (validate_external_sensory_window w)
    tick ← validate_nfp_tick (pos (end_tick w))
    pending ← gets (λ s. s.pending_causal_transition)
    completed ← lift (completion pending w)
    modify (clear_due pending tick)
    modify (λ s. record s { current_external_sensory_window = some w })
    modify (λ s. record s { nfp_current_tick = tick })
    pure completed

  abbrev refuse_pending : Option (PendingCausalTransition V) → Checked
  refuse_pending none = ok tt
  refuse_pending (some p) = raised (value_error "an immediate causal transition is already pending")

  abbrev require_window : Option (NfpWindow V) → Result (NfpWindow V)
  require_window none = raised (value_error "an external sensory window is required before action")
  require_window (some w) = ok w

  unfoldable pub observe_action_frame :
      NfpFrame V → Method (NfpContext V) (PendingCausalTransition V)
  observe_action_frame f = do
    lift (validate_action_frame f)
    tick ← validate_nfp_tick (pos f.active_tick)
    pending ← gets (λ s. s.pending_causal_transition)
    lift (refuse_pending pending)
    window ← gets (λ s. s.current_external_sensory_window)
    before ← lift (require_window window)
    lift (
        raise_if (not (end_tick before == tick))
          "the immediate context window must end at the action tick")
    n ← gets (λ s. s.next_transition_id)
    p ← lift (make_pending (transition_name n) before f (pos tick) (pos (tick + 1)))
    modify (λ s. record s { pending_causal_transition = some p })
    modify (λ s. record s { current_action_frame = some f })
    modify (λ s. record s { nfp_current_tick = tick })
    modify (λ s. record s { next_transition_id = s.next_transition_id + 1 })
    pure p

  abbrev overdue : Option (PendingCausalTransition V) → ℕ → Option (PendingCausalTransition V)
  overdue none tick = none
  overdue (some p) tick = if ltb p.expected_observation_tick tick then some p else none

  abbrev clear_expired : Option (PendingCausalTransition V) → NfpContext V → NfpContext V
  clear_expired none s = s
  clear_expired (some p) s = clear_pending s

  unfoldable pub expire_pending_if_overdue :
      ℤ → Method (NfpContext V) (Option (PendingCausalTransition V))
  expire_pending_if_overdue current_tick = do
    tick ← validate_nfp_tick current_tick
    pending ← gets (λ s. s.pending_causal_transition)
    let expired = overdue pending tick
    modify (clear_expired expired)
    modify (λ s. record s { nfp_current_tick = tick })
    pure expired
