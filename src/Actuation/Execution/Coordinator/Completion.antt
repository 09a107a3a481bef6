-- ===== src/Actuation/Execution/Coordinator/Completion.antt =====
-- The consequence of an executed action is observed: the calls of the `try` block all return.
use rnde_m.Prelude.{
  List, All, ℕ, ◌+◌, ◌≤◌, ◌≡◌, refl, sym, ap, subst, false, Option, some, none, [], ◌∷◌, arith, ok,
  Text, codes, is_blank, strip, is_space,
}
use rnde_m.Prelude.Floats.{Floats}
use rnde_m.Core.Ids.{count_of, IdGenerator, next_id}
use rnde_m.Core.Ids.Laws.{id_name_kept}
use rnde_m.Patterns.Model.{size, NfpFrame, contains, clean_ref, eq_modality_iff}
use rnde_m.Patterns.Window.{
  frames, last_frame, NfpWindow, end_tick, topology, make_window, check_frames,
}
use rnde_m.Patterns.Window.Laws.{IsWindow, eq_topology_iff}
use rnde_m.Context.Causal.{RecentCausalTransition, PendingCausalTransition}
use rnde_m.Context.Manager.{NfpContext, observe_external_sensory_window}
use rnde_m.Context.Manager.Invariant.{
  IsCoherent, awaited_IsPending, observe_window-IsCoherent, observe_window-pending, observed,
}
use rnde_m.Experience.Effects.Laws.{IsUnit, IsActivation, IsObserved}
use rnde_m.Context.Causality.{IsPending, IsExternal}
use rnde_m.Transduction.Visual.{check_snapshot, VisualFieldSnapshot, transduce}
use rnde_m.Transduction.Visual.Laws.{IsSnapshot, frame_of, transduce_accepted, plane-is_empty}
use rnde_m.Actuation.Execution.{World}
use rnde_m.Actuation.Execution.Response.{Response}
use rnde_m.Actuation.Execution.Observation.{Loop, observe_after}
use rnde_m.Actuation.Execution.Coordinator.Progress.{IsReady}

module _ {V : Type 0} where
  abbrev single : Text → NfpFrame V → NfpWindow V
  single id f = record {
    window_id = id;
    first = f;
    rest = [];
    provenance_ref = none;
    debug_name = none;
  }

  -- One frame is a window.
  single-made :
      (id : Text) (f : NfpFrame V)
      → is_blank id ≡ false
      → strip id ≡ id
      → make_window id (f ∷ []) none none ≡ ok (single id f)
  unfolding make_window check_frames contains clean_ref
  single-made id f named kept = ground (
    arith,
    (eq_modality_iff f.modality f.modality).1 refl,
    (eq_topology_iff f.topology f.topology).1 refl,
  )

module _ (F : Floats) where
  open F use {Float}

  framed :
      (s : VisualFieldSnapshot Float) (id : Text)
      → IsSnapshot F s
      → is_blank id ≡ false
      → transduce F s id ≡ ok (frame_of F s id)
  framed s id h named =
      transduce_accepted F s id named (plane-is_empty F s.shape h.plane) h.positive h.sized
        h.in_unit

  cells-IsUnit : (vs : List Float) → check_snapshot F vs ≡ ok tt → All (IsUnit F) vs
  unfolding check_snapshot
  cells-IsUnit [] h = tt
  cells-IsUnit (v ∷ vs) h = (
    record { finite = ground arith; not_below = ground arith; not_above = ground arith },
    cells-IsUnit vs (ground arith),
  )

  frame_of-IsActivation :
      (s : VisualFieldSnapshot Float) (id : Text)
      → IsSnapshot F s
      → IsActivation F (frame_of F s id)
  unfolding size
  frame_of-IsActivation s id h = record {
    sized = h.sized;
    in_unit = cells-IsUnit s.values h.in_unit;
  }

  -- A completed transition of an action, between endpoints that hold activations.
  pub record IsAnswered (r : RecentCausalTransition Float) (f : NfpFrame Float) : Type 0 where
    pub observed : IsObserved r
    pub before_activated : IsActivation F (last_frame r.before_sensory_window)
    pub after_activated : IsActivation F (last_frame r.after_sensory_window)
    pub of_action : r.action_frame ≡ f

  module _ (W : World Float) (R : Response F W) (digest : Text → Text) where
    -- A transition is pending, its observation is due at the world's tick, and the world's field has
    -- the shape of the window before the action.
    pub record IsDue (s : Loop F W) (u : ℕ) (p : PendingCausalTransition Float) : Type 0 where
      pub coherent : IsCoherent s.manager
      pub pending : s.manager.pending_causal_transition ≡ some p
      pub due : p.expected_observation_tick ≡ u
      pub not_late : s.manager.nfp_current_tick ≤ u
      pub framed : IsWindow (frames p.before_sensory_window)
      pub activated : IsActivation F (last_frame p.before_sensory_window)
      pub world_ready : R.IsReady s.world u (topology p.before_sensory_window)

    abbrev frame_prefix : Text
    frame_prefix = codes "remembered_action_observation_frame"

    abbrev window_prefix : Text
    window_prefix = codes "remembered_action_observation_window"

    -- The calls of the observation, one after the other.
    observe_chain :
        (s : Loop F W) (snapshot : VisualFieldSnapshot Float) (world : W.State)
        (frame : NfpFrame Float) (window : NfpWindow Float)
        (recent : Option (RecentCausalTransition Float)) (manager : NfpContext Float)
        → let (frame_id, ids₁) = next_id frame_prefix s.ids in
          let (window_id, ids₂) = next_id window_prefix ids₁ in
          W.snapshot s.world ≡ (ok snapshot, world)
          → transduce F snapshot frame_id ≡ ok frame
          → make_window window_id (frame ∷ []) none none ≡ ok window
          → observe_external_sensory_window window s.manager ≡ (ok recent, manager)
          → observe_after F W s
            ≡ (ok recent, record s { ids = ids₂; world = world; manager = manager })
    unfolding observe_after
    observe_chain s snapshot world frame window recent manager h k l m = ground (arith, h, k, l, m)

    -- The window completes the pending transition.
    sensed :
        (m : NfpContext Float) (p : PendingCausalTransition Float) (w : NfpWindow Float)
        → IsCoherent m
        → IsExternal w
        → m.nfp_current_tick ≤ end_tick w
        → m.pending_causal_transition ≡ some p
        → end_tick w ≡ p.expected_observation_tick
        → topology p.before_sensory_window ≡ topology w
        → observe_external_sensory_window w m ≡ (
          ok (some (observed p w)),
          record m {
            current_external_sensory_window = some w;
            nfp_current_tick = end_tick w;
            pending_causal_transition = none;
            current_action_frame = none;
          },
        )
    sensed m p w h x past pending due same =
        let (r, t) = (observe_window-pending w p m h x past pending).1 due same in λ i. (r i, t i)

    abbrev seen_frame : VisualFieldSnapshot Float → IdGenerator → NfpFrame Float
    seen_frame snapshot ids = frame_of F snapshot (next_id frame_prefix ids).0

    abbrev seen_window : VisualFieldSnapshot Float → IdGenerator → NfpWindow Float
    seen_window snapshot ids =
        single (next_id window_prefix (next_id frame_prefix ids).1).0 (seen_frame snapshot ids)

    pub observe_after_due :
        (s : Loop F W) (u : ℕ) (p : PendingCausalTransition Float)
        → IsDue s u p
        → (recent : RecentCausalTransition Float) × (t : Loop F W) × (w : NfpWindow Float)
          × (observe_after F W s ≡ (ok (some recent), t))
          × IsAnswered recent p.action_frame
          × (recent.before_sensory_window ≡ p.before_sensory_window)
          × IsReady F W R digest t u w
    unfolding next_id is_space
    observe_after_due s u p h =
        let (snapshot, world, taken, good, ticks, shaped, ready) =
          R.shows s.world u (topology p.before_sensory_window) h.world_ready in
        let (frame_id, ids₁) = next_id frame_prefix s.ids in
        let (window_id, ids₂) = next_id window_prefix ids₁ in
        let named = id_name_kept frame_prefix (count_of frame_prefix s.ids.counters + 1) refl in
        let labelled = id_name_kept window_prefix (count_of window_prefix ids₁.counters + 1) refl in
        let w = seen_window snapshot s.ids in
        let external : IsExternal w = record { is_visual = refl; from_sensors = (refl, tt) } in
        let completed =
          sensed s.manager p w h.coherent external (omega arith) h.pending (omega arith)
            (sym shaped) in
        let awaited : IsPending p = awaited_IsPending s.manager p h.coherent h.pending in
        let cells = frame_of-IsActivation snapshot frame_id good in
        let manager = record s.manager {
          current_external_sensory_window = some w;
          nfp_current_tick = end_tick w;
          pending_causal_transition = none;
          current_action_frame = none;
        } in
        (
          observed p w,
          record s { ids = ids₂; world = world; manager = manager },
          w,
          observe_chain s snapshot world (seen_frame snapshot s.ids) w (some (observed p w)) manager
              taken (framed snapshot frame_id good named.0)
              (single-made window_id (seen_frame snapshot s.ids) labelled.0 labelled.1) completed,
          record {
            observed = record {
              named = awaited.named;
              before_external = awaited.before_external;
              after_external = external;
              before_window = h.framed;
              after_window = (tt, (tt, tt));
              action_valid = awaited.action_valid;
              at_action = awaited.at_action;
              next_tick = omega arith;
              same_topology = sym shaped;
            };
            before_activated = h.activated;
            after_activated = cells;
            of_action = refl;
          },
          refl,
          record {
            framed = (tt, (tt, tt));
            activated = cells;
            coherent =
                subst IsCoherent (ap (λ r. r.1) completed)
                  (observe_window-IsCoherent w s.manager h.coherent);
            idle = refl;
            sees = refl;
            ends = ticks;
            not_late = omega arith;
            world_ready = subst (R.IsReady world u) (sym shaped) ready;
          },
        )
