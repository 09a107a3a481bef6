-- ===== src/Examples/Context.antt =====
-- Examples for clc/context.
use rnde_m.Prelude.{
  ℕ, ◌+◌, ◌<◌, ◌≡◌, ◌≢◌, ◌↔◌, refl, true, false, some, none, List, [], ◌∷◌, arith, map, ok, raised,
  value_error, accepts, Pairwise, pos, ℤ,
}
use rnde_m.Patterns.Window.{end_tick, topology}
use rnde_m.Context.Causal.{RecentCausalTransition, PendingCausalTransition}
use rnde_m.Context.Causality.{IsAction}
use rnde_m.Context.Manager.{
  NfpContext, initial, observe_external_sensory_window, observe_action_frame, transition_name,
}
use rnde_m.Context.Manager.Invariant.{
  IsCoherent, opening, observed, CanAct, observe_action_frame-opens, observe_window-pending,
  opened-IsCoherent,
}
use rnde_m.Context.Manager.Traces.{
  Event, sense, act, run, CompletedBefore, run_ordered, run-IsCoherent,
}
use rnde_m.Context.ShortMemory.{fresh_memory, retained, remember}
use rnde_m.Context.ShortMemory.History.{CanRemember, remembered, remember_iff}
use rnde_m.Context.ShortMemory.Calls.{Call, remember_call, prune_call, serve, serve-retained}
use rnde_m.Context.Handover.{handed, handover_complete}
use rnde_m.Examples.Sensors.{two_frames, two_frames-IsExternal, push_at}

-- Sense, act, sense; then a second action whose observation is late.
abbrev events : List (Event ℤ)
events =
    sense (two_frames 3 4)
    ∷ act (push_at 4)
    ∷ sense (two_frames 4 5)
    ∷ act (push_at 5)
    ∷ sense (two_frames 7 8)
    ∷ act (push_at 8)
    ∷ sense (two_frames 8 9)
    ∷ []

handover_complete_example :
    let rs = (run events initial).0 in (serve (map handed rs) (fresh_memory 1 5)).1 ≡ rs
handover_complete_example = handover_complete events 1 5

run_ordered_example : Pairwise CompletedBefore (run events initial).0
run_ordered_example = run_ordered events

abbrev seen_at : ℕ → ℕ → RecentCausalTransition ℤ
seen_at n tick = record {
  transition_id = transition_name n;
  before_sensory_window = two_frames tick (tick + 1);
  action_frame = push_at (tick + 1);
  after_sensory_window = two_frames (tick + 1) (tick + 2);
  action_tick = tick + 1;
  observation_tick = tick + 2;
}

abbrev calls : List (Call ℤ)
calls =
    remember_call (seen_at 1 3) (pos 5)
    ∷ remember_call (seen_at 2 6) (pos 8)
    ∷ prune_call (pos 9)
    ∷ remember_call (seen_at 2 8) (pos 10)
    ∷ []

serve-retained_example :
    let (m, history) = serve calls (fresh_memory 2 4) in
    m.entries ≡ retained 2 4 history m.current_tick
serve-retained_example = serve-retained 2 4 calls

remember_iff_example :
    let m = fresh_memory 2 4 in
    let r = seen_at 1 3 in
    ((accepts (remember r (pos 5) m).0 ≡ true) ↔ CanRemember m r 5)
    × (CanRemember m r 5 → (remember r (pos 5) m).1 ≡ remembered m r 5)
    × ((accepts (remember r (pos 5) m).0 ≡ false) → (remember r (pos 5) m).1 ≡ m)
remember_iff_example = remember_iff (fresh_memory 2 4) (seen_at 1 3) 5

push_at-IsAction : (t : ℕ) → IsAction (push_at t)
push_at-IsAction t = record { is_action = refl; generated = refl }

abbrev watching : NfpContext ℤ
watching = record {
  current_external_sensory_window = some (two_frames 3 4);
  current_action_frame = none;
  pending_causal_transition = none;
  nfp_current_tick = 4;
  next_transition_id = 1;
}

watching-IsCoherent : IsCoherent watching
watching-IsCoherent = record {
  seen = (two_frames-IsExternal 3 4, omega arith);
  awaited = refl;
  numbered = omega arith;
}

run-IsCoherent_example : IsCoherent (run events watching).1
run-IsCoherent_example = run-IsCoherent events watching watching-IsCoherent

can_push : CanAct (push_at 4) (two_frames 3 4) watching
can_push = record {
  valid = push_at-IsAction 4;
  not_past = omega arith;
  idle = refl;
  sees = refl;
  immediate = refl;
}

observe_action_frame-opens_example : (observe_action_frame (push_at 4) watching) ≡ (
  ok (opening watching (two_frames 3 4) (push_at 4)),
  record watching {
    pending_causal_transition = some (opening watching (two_frames 3 4) (push_at 4));
    current_action_frame = some (push_at 4);
    nfp_current_tick = 4;
    next_transition_id = 2;
  },
)
observe_action_frame-opens_example =
    observe_action_frame-opens (push_at 4) (two_frames 3 4) watching watching-IsCoherent can_push

abbrev awaiting : NfpContext ℤ
awaiting = record watching {
  pending_causal_transition = some (opening watching (two_frames 3 4) (push_at 4));
  current_action_frame = some (push_at 4);
  nfp_current_tick = 4;
  next_transition_id = 2;
}

observe_window-pending_example :
    let p = opening watching (two_frames 3 4) (push_at 4) in
    let w = two_frames 4 5 in
    let (r, t) = observe_external_sensory_window w awaiting in
    let current = record awaiting {
      current_external_sensory_window = some w;
      nfp_current_tick = end_tick w;
    } in
    let cleared = record current {
      pending_causal_transition = none;
      current_action_frame = none;
    } in
    (end_tick w < p.expected_observation_tick → (r ≡ ok none) × (t ≡ current))
    × (end_tick w ≡ p.expected_observation_tick
        → topology p.before_sensory_window ≡ topology w
        → (r ≡ ok (some (observed p w))) × (t ≡ cleared))
    × (end_tick w ≡ p.expected_observation_tick
        → topology p.before_sensory_window ≢ topology w
        → (r ≡ raised (value_error "before and after visual topologies must match"))
          × (t ≡ awaiting))
    × (p.expected_observation_tick < end_tick w → (r ≡ ok none) × (t ≡ cleared))
observe_window-pending_example =
    observe_window-pending (two_frames 4 5) (opening watching (two_frames 3 4) (push_at 4)) awaiting
      (opened-IsCoherent (push_at 4) (two_frames 3 4) watching watching-IsCoherent can_push)
      (two_frames-IsExternal 4 5) (omega arith) refl

-- A transition whose window ends after its action is not well formed.
abbrev too_late : PendingCausalTransition ℤ
too_late = opening watching (two_frames 4 5) (push_at 4)
