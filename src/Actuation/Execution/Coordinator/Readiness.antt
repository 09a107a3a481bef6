-- ===== src/Actuation/Execution/Coordinator/Readiness.antt =====
-- In order, `execute` ends well and can be called again.
use rnde_m.Prelude.{ℕ, ◌+◌, ◌≡◌, refl, ap, ◌∙◌, true, Option, some, none, arith, ok, Text}
use rnde_m.Prelude.Floats.{Floats}
use rnde_m.Prelude.Stages.{Next, go, settle}
use rnde_m.Patterns.Model.{NfpFrame}
use rnde_m.Patterns.Window.Laws.{IsWindow}
use rnde_m.Experience.Effects.Laws.{IsActivation}
use rnde_m.Patterns.Window.{frames, last_frame, NfpWindow, topology}
use rnde_m.Context.Causal.{RecentCausalTransition, PendingCausalTransition}
use rnde_m.Context.Manager.{NfpContext, observe_action_frame}
use rnde_m.Context.Manager.Invariant.{
  IsCoherent, opening, opened-IsCoherent, observe_action_frame-opens, CanAct,
}
use rnde_m.Actuation.Motor.Laws.{signal_of}
use rnde_m.Context.ShortMemory.{ShortMemory}
use rnde_m.System.State.{SystemState}
use rnde_m.Actuation.Execution.{
  Detail, SelectedExperience, ExecutionRequest, ExecutionResult, executed_and_observed, World,
}
use rnde_m.Actuation.Execution.Response.{Response}
use rnde_m.Actuation.Execution.Observation.{Loop, observe_after, retain}
use rnde_m.Actuation.Execution.Coordinator.{
  executed, Prepared, prepare, follow, conclude, act, execute,
}
use rnde_m.Actuation.Execution.Coordinator.Progress.{IsReady, IsTimely, prepare_ready, occurrence}
use rnde_m.Actuation.Execution.Coordinator.Completion.{IsAnswered, observe_after_due}

module _ (F : Floats) (W : World (F.Float)) (R : Response F W) (digest : Text → Text) where
  open F use {Float}

  -- The world has taken the signal of an action at this tick.
  record IsTaken (s : Loop F W) (t : ℕ) (f : NfpFrame Float) (w : NfpWindow Float) : Type 0 where
    coherent : IsCoherent s.manager
    can_act : CanAct f w s.manager
    at_tick : f.active_tick ≡ t
    framed : IsWindow (frames w)
    activated : IsActivation F (last_frame w)
    world_ready : R.IsReady s.world (t + 1) (topology w)

  -- Remembering the transition leaves the rest alone.
  retain-IsReady :
      (recent : RecentCausalTransition Float) (s : Loop F W) (t : ℕ) (w : NfpWindow Float)
      → IsReady F W R digest s t w
      → IsReady F W R digest (retain F W recent s).1 t w
  unfolding retain
  retain-IsReady recent s t w h = kept s.memory
    where
      kept :
          (o : Option (ShortMemory Float))
          → IsReady F W R digest (retain F W recent (record s { memory = o })).1 t w
      kept none = record {
        coherent = h.coherent;
        idle = h.idle;
        sees = h.sees;
        ends = h.ends;
        not_late = h.not_late;
        framed = h.framed;
        activated = h.activated;
        world_ready = h.world_ready;
      }
      kept (some memory) = record {
        coherent = h.coherent;
        idle = h.idle;
        sees = h.sees;
        ends = h.ends;
        not_late = h.not_late;
        framed = h.framed;
        activated = h.activated;
        world_ready = h.world_ready;
      }

  -- The calls that follow, one after the other.
  follow_chain :
      (selected : SelectedExperience Float) (p : Prepared Float) (s : Loop F W)
      (pending : PendingCausalTransition Float) (manager : NfpContext Float)
      (recent : RecentCausalTransition Float) (t : Loop F W)
      → observe_action_frame p.frame s.manager ≡ (ok pending, manager)
      → observe_after F W (record s { manager = manager }) ≡ (ok (some recent), t)
      → follow F W digest selected true p s ≡ conclude F W digest selected p (some recent) t
  unfolding follow
  follow_chain selected p s pending manager recent t h k = ground (arith, h, k)

  follow_taken :
      (selected : SelectedExperience Float) (p : Prepared Float) (s : Loop F W) (t : ℕ)
      → IsTaken s t p.frame p.before
      → (recent : RecentCausalTransition Float) × (after : Loop F W) × (w : NfpWindow Float)
        × (follow F W digest selected true p s ≡ conclude F W digest selected p (some recent) after)
        × IsAnswered F recent p.frame
        × (recent.before_sensory_window ≡ p.before)
        × IsReady F W R digest after (t + 1) w
  follow_taken selected p s t h =
      let opened = observe_action_frame-opens p.frame p.before s.manager h.coherent h.can_act in
      let pending = opening s.manager p.before p.frame in
      let manager = record s.manager {
        pending_causal_transition = some pending;
        current_action_frame = some p.frame;
        nfp_current_tick = p.frame.active_tick;
        next_transition_id = s.manager.next_transition_id + 1;
      } in
      let (recent, after, w, seen, answered, before, ready) =
        observe_after_due F W R digest (record s { manager = manager }) (t + 1) pending
          (record {
            coherent = opened-IsCoherent p.frame p.before s.manager h.coherent h.can_act;
            pending = refl;
            due = omega arith;
            not_late = omega arith;
            framed = h.framed;
            activated = h.activated;
            world_ready = h.world_ready;
          }) in
      (
        recent,
        after,
        w,
        follow_chain selected p s pending manager recent after opened seen,
        answered,
        before,
        ready,
      )

  -- The result of an executed and observed action.
  abbrev pub ended :
      SelectedExperience Float
      → Prepared Float
      → RecentCausalTransition Float
      → Detail
      → ExecutionResult Float
  ended selected p recent detail =
      record (executed selected p.before p.frame p.signal executed_and_observed detail) {
        recent_transition = some recent;
      }

  conclude-IsReady :
      (selected : SelectedExperience Float) (p : Prepared Float)
      (recent : RecentCausalTransition Float) (s : Loop F W) (t : ℕ) (w : NfpWindow Float)
      → IsReady F W R digest s t w
      → let (n, u) = conclude F W digest selected p (some recent) s in
        (settle n ≡ ended selected p recent (retain F W recent s).0) × IsReady F W R digest u t w
  unfolding conclude
  conclude-IsReady selected p recent s t w h = (refl, retain-IsReady recent s t w h)

  act_taken :
      (selected : SelectedExperience Float) (p : Prepared Float) (s : Loop F W) (world : W.State)
      → W.apply_actuator_signal p.signal s.world ≡ (ok tt, world)
      → act F W digest selected true p s
        ≡ follow F W digest selected true p (record s { world = world })
  unfolding act
  act_taken selected p s world h = ground (arith, h)

  execute_prepared :
      (request : ExecutionRequest Float) (system : SystemState) (s t : Loop F W)
      (p : Prepared Float)
      → prepare F W digest request system s ≡ (go p, t)
      → execute F W digest request system true s
        ≡ (let (n, u) = act F W digest request.selected true p t in (settle n, u))
  unfolding execute
  execute_prepared request system s t p h = ground (arith, h)

  -- In order and asked in time, the coordinator executes the action and observes its consequence:
  -- the result shows the completed transition of the action, and at the next tick the coordinator is
  -- in order again, with the new window as the current one.
  pub execute_ends :
      (request : ExecutionRequest Float) (system : SystemState) (s : Loop F W) (t : ℕ)
      (w : NfpWindow Float)
      → IsReady F W R digest s t w
      → IsTimely F W R digest request system t
      → (p : Prepared Float) × (recent : RecentCausalTransition Float) × (detail : Detail)
        × (after : NfpWindow Float) × ((execute F W digest request system true s).0
            ≡ ended request.selected p recent detail)
        × IsAnswered F recent p.frame
        × (recent.before_sensory_window ≡ w)
        × IsReady F W R digest (execute F W digest request system true s).1 (t + 1) after
  execute_ends request system s t w h k =
      let (id, ids, prepared) = prepare_ready F W R digest request system s t w h k in
      let frame = occurrence F request.selected t id in
      let signal = signal_of F digest frame s.next_signal_id in
      let p : Prepared Float = record { before = w; frame = frame; signal = signal } in
      let (world, taken, answers) =
        R.takes_signal s.world t (topology w) signal h.world_ready refl k.executable.sized in
      let told : Loop F W = record s {
        ids = ids;
        next_signal_id = s.next_signal_id + 1;
        world = world;
      } in
      let (recent, after, w', followed, answered, before, ready) =
        follow_taken request.selected p told t (record {
          coherent = h.coherent;
          can_act = record {
            valid = record { is_action = refl; generated = refl };
            not_past = h.not_late;
            idle = h.idle;
            sees = h.sees;
            immediate = h.ends;
          };
          at_tick = refl;
          framed = h.framed;
          activated = h.activated;
          world_ready = answers;
        }) in
      let ends = conclude-IsReady request.selected p recent after (t + 1) w' ready in
      let equal =
        execute_prepared request system s
          (record s { ids = ids; next_signal_id = s.next_signal_id + 1 }) p prepared
        ∙ ap
            (λ (o : Next (ExecutionResult Float) (ExecutionResult Float) × Loop F W).
              (settle o.0, o.1))
            (act_taken request.selected p
                (record s { ids = ids; next_signal_id = s.next_signal_id + 1 }) world taken
              ∙ followed) in
      rw equal (p, recent, (retain F W recent after).0, w', ends.0, answered, before, ends.1)

  pub execute-IsReady :
      (request : ExecutionRequest Float) (system : SystemState) (s : Loop F W) (t : ℕ)
      (w : NfpWindow Float)
      → IsReady F W R digest s t w
      → IsTimely F W R digest request system t
      → let (r, u) = execute F W digest request system true s in
        (r.status ≡ executed_and_observed)
        × ((after : NfpWindow Float) × IsReady F W R digest u (t + 1) after)
  execute-IsReady request system s t w h k =
      let (p, recent, detail, after, r, answered, before, ready) =
        execute_ends request system s t w h k in
      (ap (λ (x : ExecutionResult Float). x.status) r, (after, ready))
