-- ===== src/Context/Manager/Invariant.antt =====
-- What holds of the manager's natural-pattern state between two calls, and what each call does.
use rnde_m.Prelude.{
  ℕ, ◌+◌, ◌-◌, ◌≤◌, ◌<◌, ◌≡◌, refl, sym, subst, ◌≢◌, value_error, Result-cases, ap, false, Option,
  none, some, arith, ℤ, ok, raised, Error, is_blank, is_space, visible-blank, Option-cases, inl,
  inr,
}
use rnde_m.Patterns.Model.{NfpFrame}
use rnde_m.Patterns.Window.{NfpWindow, end_tick, topology}
use rnde_m.Patterns.Window.Laws.{eq_topology_iff}
use rnde_m.Context.Causal.{PendingCausalTransition, RecentCausalTransition, make_recent}
use rnde_m.Context.Causality.{
  IsExternal, IsAction, IsPending, validate_external_sensory_window_iff, validate_action_frame_iff,
  make_pending_iff,
}
use rnde_m.Context.Manager.{
  NfpContext, initial, transition_name, completion, observe_external_sensory_window,
  observe_action_frame, expire_pending_if_overdue, validate_nfp_tick,
}

name-blank : (n : ℕ) → is_blank (transition_name n) ≡ false
unfolding transition_name is_space
name-blank n = visible-blank 99 _ refl

module _ {V : Type 0} where
  -- The current window came from the sensors and is not in the future.
  abbrev pub IsSeen : Option (NfpWindow V) → ℕ → Type 0
  IsSeen none tick = Unit
  IsSeen (some w) tick = IsExternal w × (end_tick w ≤ tick)

  -- A pending transition is well formed, its action is the current one, its observation is not
  -- overdue, and it bears the last name that was given out; with none pending there is no action.
  abbrev pub IsAwaited : Option (PendingCausalTransition V) → NfpContext V → Type 0
  IsAwaited none s = s.current_action_frame ≡ none
  IsAwaited (some p) s =
      IsPending p
      × (s.current_action_frame ≡ some p.action_frame)
      × (p.action_tick ≤ s.nfp_current_tick)
      × (s.nfp_current_tick ≤ p.expected_observation_tick)
      × (p.transition_id ≡ transition_name (s.next_transition_id - 1))

  pub record IsCoherent (s : NfpContext V) : Type 0 where
    pub seen : IsSeen s.current_external_sensory_window s.nfp_current_tick
    pub awaited : IsAwaited s.pending_causal_transition s
    pub numbered : 1 ≤ s.next_transition_id

  pub initial-IsCoherent : IsCoherent (initial {V = V})
  initial-IsCoherent = record { seen = tt; awaited = refl; numbered = omega arith }

  pub expire-IsCoherent :
      (tick : ℤ) (s : NfpContext V) → IsCoherent s → IsCoherent (expire_pending_if_overdue tick s).1
  unfolding expire_pending_if_overdue validate_nfp_tick
  expire-IsCoherent tick s h = ground arith

  pub observe_window-IsCoherent :
      (w : NfpWindow V) (s : NfpContext V)
      → IsCoherent s
      → IsCoherent (observe_external_sensory_window w s).1
  unfolding observe_external_sensory_window validate_nfp_tick
  observe_window-IsCoherent w s h = ground (arith, validate_external_sensory_window_iff w)

  -- The transition that an action opens.
  abbrev pub opening : NfpContext V → NfpWindow V → NfpFrame V → PendingCausalTransition V
  opening s w f = record {
    transition_id = transition_name s.next_transition_id;
    before_sensory_window = w;
    action_frame = f;
    action_tick = f.active_tick;
    expected_observation_tick = f.active_tick + 1;
  }

  opening-IsPending :
      (s : NfpContext V) (w : NfpWindow V) (f : NfpFrame V)
      → IsExternal w
      → IsAction f
      → end_tick w ≡ f.active_tick
      → IsPending (opening s w f)
  opening-IsPending s w f external valid e = record {
    named = name-blank s.next_transition_id;
    before_external = external;
    action_valid = valid;
    at_action = refl;
    next_tick = refl;
    before_action = omega arith;
  }

  -- When an action is accepted.
  pub record CanAct (f : NfpFrame V) (w : NfpWindow V) (s : NfpContext V) : Type 0 where
    pub valid : IsAction f
    pub not_past : s.nfp_current_tick ≤ f.active_tick
    pub idle : s.pending_causal_transition ≡ none
    pub sees : s.current_external_sensory_window ≡ some w
    pub immediate : end_tick w ≡ f.active_tick

  pub opened-IsCoherent :
      (f : NfpFrame V) (w : NfpWindow V) (s : NfpContext V)
      → IsCoherent s
      → CanAct f w s
      → IsCoherent (record s {
        pending_causal_transition = some (opening s w f);
        current_action_frame = some f;
        nfp_current_tick = f.active_tick;
        next_transition_id = s.next_transition_id + 1;
      })
  opened-IsCoherent f w s h c = ground (
    arith,
    opening-IsPending s w f,
    ap transition_name
        (let e : s.next_transition_id + 1 - 1 ≡ s.next_transition_id = omega arith in e),
  )

  -- In a coherent state a valid action frame, not in the past, with nothing pending and a current
  -- window that ends at its tick, opens a transition: the constructor does not refuse it, and the
  -- new state is exactly the old one with the transition pending under the next name.
  pub observe_action_frame-opens :
      (f : NfpFrame V) (w : NfpWindow V) (s : NfpContext V)
      → IsCoherent s
      → CanAct f w s
      → observe_action_frame f s ≡ (
        ok (opening s w f),
        record s {
          pending_causal_transition = some (opening s w f);
          current_action_frame = some f;
          nfp_current_tick = f.active_tick;
          next_transition_id = s.next_transition_id + 1;
        },
      )
  unfolding observe_action_frame validate_nfp_tick
  observe_action_frame-opens f w s h c = ground (
    arith,
    validate_action_frame_iff f,
    opening-IsPending s w f,
    make_pending_iff (opening s w f),
  )

  -- An accepted action had all that it needs.
  pub observe_action_frame-CanAct :
      (f : NfpFrame V) (s : NfpContext V) (p : PendingCausalTransition V)
      → (observe_action_frame f s).0 ≡ ok p
      → (w : NfpWindow V) × CanAct f w s
  unfolding observe_action_frame validate_nfp_tick
  observe_action_frame-CanAct f s p e = elim (Option-cases s.current_external_sensory_window) [
    | inl unseen ↦ absurd (ground arith)
    | inr (w, sees) ↦ (w, ground (arith, validate_action_frame_iff f))
  ]

  -- A call that raises leaves the state as it was.
  pub observe_action_frame_error :
      (f : NfpFrame V) (s : NfpContext V) (e : Error)
      → (observe_action_frame f s).0 ≡ raised e
      → (observe_action_frame f s).1 ≡ s
  unfolding observe_action_frame validate_nfp_tick
  observe_action_frame_error f s e h = ground arith

  pub observe_action-IsCoherent :
      (f : NfpFrame V) (s : NfpContext V) → IsCoherent s → IsCoherent (observe_action_frame f s).1
  observe_action-IsCoherent f s h = elim (Result-cases (observe_action_frame f s).0) [
    | inl (e, failed) ↦ subst IsCoherent (sym (observe_action_frame_error f s e failed)) h
    | inr (p, opened) ↦
        let (w, c) = observe_action_frame-CanAct f s p opened in
        rw (observe_action_frame-opens f w s h c) (opened-IsCoherent f w s h c)
  ]

  -- The manager's other two calls leave the state as it was if they raise.
  pub observe_window_error :
      (w : NfpWindow V) (s : NfpContext V) (e : Error)
      → (observe_external_sensory_window w s).0 ≡ raised e
      → (observe_external_sensory_window w s).1 ≡ s
  unfolding observe_external_sensory_window validate_nfp_tick
  observe_window_error w s e h = ground arith

  -- The recent transition of a pending one and the window that ends at its expected tick.
  abbrev pub observed : PendingCausalTransition V → NfpWindow V → RecentCausalTransition V
  observed p w = record {
    transition_id = p.transition_id;
    before_sensory_window = p.before_sensory_window;
    action_frame = p.action_frame;
    after_sensory_window = w;
    action_tick = p.action_tick;
    observation_tick = end_tick w;
  }

  pub completion-observed :
      (p : PendingCausalTransition V) (w : NfpWindow V)
      → IsPending p
      → IsExternal w
      → end_tick w ≡ p.expected_observation_tick
      → topology p.before_sensory_window ≡ topology w
      → completion (some p) w ≡ ok (some (observed p w))
  unfolding completion make_recent
  completion-observed p w h x e t = ground (
    arith,
    make_pending_iff p,
    validate_external_sensory_window_iff w,
    eq_topology_iff (topology p.before_sensory_window) (topology w),
  )

  -- A window of another topology at the expected tick raises.
  pub completion-mismatch :
      (p : PendingCausalTransition V) (w : NfpWindow V)
      → IsPending p
      → IsExternal w
      → end_tick w ≡ p.expected_observation_tick
      → topology p.before_sensory_window ≢ topology w
      → completion (some p) w ≡ raised (value_error "before and after visual topologies must match")
  unfolding completion make_recent
  completion-mismatch p w h x e t = ground (
    arith,
    make_pending_iff p,
    validate_external_sensory_window_iff w,
    eq_topology_iff (topology p.before_sensory_window) (topology w),
  )

  pub awaited_IsPending :
      (s : NfpContext V) (p : PendingCausalTransition V)
      → IsCoherent s
      → s.pending_causal_transition ≡ some p
      → IsPending p
  awaited_IsPending s p h e = (subst (λ o. IsAwaited o s) e h.awaited).0

  -- At any other tick nothing is completed.
  completion-early :
      (p : PendingCausalTransition V) (w : NfpWindow V)
      → end_tick w ≢ p.expected_observation_tick
      → completion (some p) w ≡ ok none
  unfolding completion
  completion-early p w h = ground arith

  -- What a sensory window does to a pending transition, in a coherent state and not in the past:
  -- before the expected tick it only becomes the current window; at it, it completes the transition
  -- if the topologies agree and raises with nothing changed if they do not; after it, the
  -- transition is dropped and the window still becomes the current one.
  pub observe_window-pending :
      (w : NfpWindow V) (p : PendingCausalTransition V) (s : NfpContext V)
      → IsCoherent s
      → IsExternal w
      → s.nfp_current_tick ≤ end_tick w
      → s.pending_causal_transition ≡ some p
      → let (r, t) = observe_external_sensory_window w s in
        let current = record s {
          current_external_sensory_window = some w;
          nfp_current_tick = end_tick w;
        } in
        let cleared = record current {
          pending_causal_transition = none;
          current_action_frame = none;
        } in
        (end_tick w < p.expected_observation_tick → (r ≡ ok none) × (t ≡ current))
        × (end_tick w ≡ p.expected_observation_tick
            → topology p.before_sensory_window ≡ topology w
            → (r ≡ ok (some (observed p w))) × (t ≡ cleared))
        × (end_tick w ≡ p.expected_observation_tick
            → topology p.before_sensory_window ≢ topology w
            → (r ≡ raised (value_error "before and after visual topologies must match")) × (t ≡ s))
        × (p.expected_observation_tick < end_tick w → (r ≡ ok none) × (t ≡ cleared))
  unfolding observe_external_sensory_window validate_nfp_tick
  observe_window-pending w p s h x past e =
      let known = validate_external_sensory_window_iff w in
      let pending : IsPending p = (awaited_IsPending s p h e) in
      (
        λ early. ground (arith, known, completion-early p w),
        λ due same. ground (arith, known, completion-observed p w pending x due same),
        λ due other. ground (arith, known, completion-mismatch p w pending x due other),
        λ late. ground (arith, known, completion-early p w),
      )
