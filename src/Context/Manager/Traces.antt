-- ===== src/Context/Manager/Traces.antt =====
-- The manager over a sequence of calls: the transitions that it completes.
use rnde_m.Prelude.{
  ℕ, ◌+◌, ◌-◌, ◌≤◌, ◌<◌, ◌≡◌, ◌≢◌, refl, Option, none, some, List, [], ◌∷◌, ◌++◌, arith, ℤ, sym,
  subst, inl, inr, Option-cases, Result-cases, ok, raised, codes, ◌∙◌, Result, All, All-map,
  Pairwise,
}
use rnde_m.Prelude.Decimal.{decimal06-injective, prefix-injective}
use rnde_m.Prelude.State.{Method, pure, ◌>>=◌}
use rnde_m.Patterns.Model.{NfpFrame}
use rnde_m.Patterns.Window.{NfpWindow, end_tick}
use rnde_m.Context.Causal.{
  PendingCausalTransition, RecentCausalTransition, make_pending, make_recent,
}
use rnde_m.Context.Manager.{
  NfpContext, initial, transition_name, completion, observe_external_sensory_window,
  observe_action_frame, expire_pending_if_overdue, validate_nfp_tick,
}
use rnde_m.Context.Manager.Invariant.{
  IsCoherent, observe_window-IsCoherent, observe_action-IsCoherent, expire-IsCoherent,
  initial-IsCoherent, CanAct, opening, observe_action_frame-CanAct, observe_action_frame-opens,
  observe_action_frame_error,
}

-- A call of one of the three methods that drive the natural-pattern state.
pub data Event (V : Type 0) : Type 0 where
  sense : NfpWindow V → Event V
  act : NfpFrame V → Event V
  expire : ℤ → Event V

pub data Outcome (V : Type 0) : Type 0 where
  completed : Option (RecentCausalTransition V) → Outcome V
  opened : PendingCausalTransition V → Outcome V
  expired : Option (PendingCausalTransition V) → Outcome V

transition_name-injective : (m n : ℕ) → transition_name m ≡ transition_name n → m ≡ n
unfolding transition_name
transition_name-injective m n e =
    decimal06-injective m n (prefix-injective (codes "causal_transition:") _ _ e)

module _ {V : Type 0} where
  unfoldable pub step : Event V → Method (NfpContext V) (Outcome V)
  step (sense w) = do r ← observe_external_sensory_window w; pure (completed r)
  step (act f) = do p ← observe_action_frame f; pure (opened p)
  step (expire tick) = do p ← expire_pending_if_overdue tick; pure (expired p)

  abbrev pub emitted : Result (Outcome V) → List (RecentCausalTransition V)
  emitted (ok (completed (some r))) = r ∷ []
  emitted _ = []

  -- The transitions that a sequence of calls completes, a call that raises being passed over.
  unfoldable pub run :
      List (Event V) → NfpContext V → List (RecentCausalTransition V) × NfpContext V
  run [] s = ([], s)
  run (e ∷ es) s = let (r, s') = step e s in let (rest, t) = run es s' in (emitted r ++ rest, t)

  pub step-IsCoherent : (e : Event V) (s : NfpContext V) → IsCoherent s → IsCoherent (step e s).1
  unfolding step
  step-IsCoherent (sense w) s h = ground (arith, observe_window-IsCoherent w s h)
  step-IsCoherent (act f) s h = ground (arith, observe_action-IsCoherent f s h)
  step-IsCoherent (expire tick) s h = ground (arith, expire-IsCoherent tick s h)

  -- Every state that calls lead to from a coherent one is coherent.
  pub run-IsCoherent :
      (es : List (Event V)) (s : NfpContext V) → IsCoherent s → IsCoherent (run es s).1
  unfolding run
  run-IsCoherent [] s h = h
  run-IsCoherent (e ∷ es) s h = run-IsCoherent es (step e s).1 (step-IsCoherent e s h)

  -- The earliest observation tick and the least number of a transition that is still to complete.
  abbrev due_of : Option (PendingCausalTransition V) → ℕ → ℕ
  due_of none tick = tick + 1
  due_of (some p) tick = p.expected_observation_tick

  abbrev due : NfpContext V → ℕ
  due s = due_of s.pending_causal_transition s.nfp_current_tick

  abbrev number_of : Option (PendingCausalTransition V) → ℕ → ℕ
  number_of none next = next
  number_of (some p) next = next - 1

  abbrev number : NfpContext V → ℕ
  number s = number_of s.pending_causal_transition s.next_transition_id

  -- Both only grow.
  record Advances (s t : NfpContext V) : Type 0 where
    due_le : due s ≤ due t
    number_le : number s ≤ number t

  sense-Advances :
      (w : NfpWindow V) (s : NfpContext V)
      → IsCoherent s
      → Advances s (observe_external_sensory_window w s).1
  unfolding observe_external_sensory_window validate_nfp_tick
  sense-Advances w s h = ground arith

  expire-Advances :
      (tick : ℤ) (s : NfpContext V) → IsCoherent s → Advances s (expire_pending_if_overdue tick s).1
  unfolding expire_pending_if_overdue validate_nfp_tick
  expire-Advances tick s h = ground arith

  opened-Advances :
      (f : NfpFrame V) (w : NfpWindow V) (s : NfpContext V)
      → IsCoherent s
      → CanAct f w s
      → Advances s (record s {
        pending_causal_transition = some (opening s w f);
        current_action_frame = some f;
        nfp_current_tick = f.active_tick;
        next_transition_id = s.next_transition_id + 1;
      })
  opened-Advances f w s h c = ground arith

  act-Advances :
      (f : NfpFrame V) (s : NfpContext V) → IsCoherent s → Advances s (observe_action_frame f s).1
  act-Advances f s h = elim (Result-cases (observe_action_frame f s).0) [
    | inl (e, failed) ↦
        subst (Advances s) (sym (observe_action_frame_error f s e failed))
          (record { due_le = omega arith; number_le = omega arith })
    | inr (p, accepted) ↦
        let (w, c) = observe_action_frame-CanAct f s p accepted in
        rw (observe_action_frame-opens f w s h c) (opened-Advances f w s h c)
  ]

  step-Advances : (e : Event V) (s : NfpContext V) → IsCoherent s → Advances s (step e s).1
  unfolding step
  step-Advances (sense w) s h = ground (arith, sense-Advances w s h)
  step-Advances (act f) s h = ground (arith, act-Advances f s h)
  step-Advances (expire tick) s h = ground (arith, expire-Advances tick s h)

  -- A completed transition was the pending one, and any later one comes strictly after it.
  record Completes (s : NfpContext V) (r : RecentCausalTransition V) (t : NfpContext V)
      : Type 0 where
    is_due : r.observation_tick ≡ due s
    is_numbered : r.transition_id ≡ transition_name (number s)
    due_lt : due s < due t
    number_lt : number s < number t

  completion-ids :
      (p : PendingCausalTransition V) (w : NfpWindow V) (r : RecentCausalTransition V)
      → completion (some p) w ≡ ok (some r)
      → (r.transition_id ≡ p.transition_id)
        × (r.observation_tick ≡ end_tick w)
        × (end_tick w ≡ p.expected_observation_tick)
  unfolding completion make_recent make_pending
  completion-ids p w r e = ground arith

  completion-idle : (w : NfpWindow V) → completion none w ≡ ok none
  unfolding completion
  completion-idle w = refl

  sense-Completes :
      (w : NfpWindow V) (s : NfpContext V) (r : RecentCausalTransition V)
      → IsCoherent s
      → (observe_external_sensory_window w s).0 ≡ ok (some r)
      → Completes s r (observe_external_sensory_window w s).1
  unfolding observe_external_sensory_window validate_nfp_tick
  sense-Completes w s r h e = elim (Option-cases s.pending_causal_transition) [
    | inl idle ↦ ground (arith, completion-idle w)
    | inr (p, pending) ↦ ground (arith, completion-ids p w r)
  ]

  step-Completes :
      (e : Event V) (s : NfpContext V) (r : RecentCausalTransition V)
      → IsCoherent s
      → (step e s).0 ≡ ok (completed (some r))
      → Completes s r (step e s).1
  unfolding step
  step-Completes (sense w) s r h k = ground (arith, sense-Completes w s r h)
  step-Completes (act f) s r h k = absurd (ground arith)
  step-Completes (expire tick) s r h k = absurd (ground arith)

  -- A transition that is still to complete from a state.
  pub record Follows (s : NfpContext V) (r : RecentCausalTransition V) : Type 0 where
    pub index : ℕ
    pub is_named : r.transition_id ≡ transition_name index
    pub not_before : due s ≤ r.observation_tick
    pub fresh : number s ≤ index

  Follows-Advances :
      (s t : NfpContext V) (r : RecentCausalTransition V) → Advances s t → Follows t r → Follows s r
  Follows-Advances s t r a f = record {
    index = f.index;
    is_named = f.is_named;
    not_before = omega arith;
    fresh = omega arith;
  }

  -- Of two completed transitions the later one was observed at a later tick, under another name.
  pub record CompletedBefore (r q : RecentCausalTransition V) : Type 0 where
    pub earlier : r.observation_tick < q.observation_tick
    pub other_name : r.transition_id ≢ q.transition_id

  Completes-before :
      (s t : NfpContext V) (r q : RecentCausalTransition V)
      → Completes s r t
      → Follows t q
      → CompletedBefore r q
  Completes-before s t r q c f = record {
    earlier = omega arith;
    other_name = λ e.
        let same =
          transition_name-injective (number s) f.index (sym c.is_numbered ∙ e ∙ f.is_named) in
        absurd (omega arith);
  }

  emitted-Follows :
      (e : Event V) (s : NfpContext V) (rest : List (RecentCausalTransition V))
      (res : Result (Outcome V))
      → (step e s).0 ≡ res
      → IsCoherent s
      → All (Follows s) rest
      → All (Follows (step e s).1) rest
      → Pairwise CompletedBefore rest
      → All (Follows s) (emitted res ++ rest) × Pairwise CompletedBefore (emitted res ++ rest)
  emitted-Follows e s rest (ok (completed (some r))) k h here there ordered =
      let c = step-Completes e s r h k in
      (
        (
          record {
            index = number s;
            is_named = c.is_numbered;
            not_before = omega arith;
            fresh = omega arith;
          },
          here,
        ),
        (All-map (λ q f. Completes-before s (step e s).1 r q c f) rest there, ordered),
      )
  emitted-Follows e s rest (ok (completed none)) k h here there ordered = (here, ordered)
  emitted-Follows e s rest (ok (opened p)) k h here there ordered = (here, ordered)
  emitted-Follows e s rest (ok (expired p)) k h here there ordered = (here, ordered)
  emitted-Follows e s rest (raised x) k h here there ordered = (here, ordered)

  pub run-Follows :
      (es : List (Event V)) (s : NfpContext V)
      → IsCoherent s
      → All (Follows s) (run es s).0 × Pairwise CompletedBefore (run es s).0
  unfolding run
  run-Follows [] s h = (tt, tt)
  run-Follows (e ∷ es) s h =
      let t = (step e s).1 in
      let later = run-Follows es t (step-IsCoherent e s h) in
      let advances = step-Advances e s h in
      let kept = All-map (λ q f. Follows-Advances s t q advances f) (run es t).0 later.0 in
      emitted-Follows e s (run es t).0 (step e s).0 refl h kept later.0 later.1

  -- From the initial state, the completed transitions have strictly increasing observation ticks
  -- and pairwise different ids, whatever the calls and however many of them raise.
  pub run_ordered : (es : List (Event V)) → Pairwise CompletedBefore (run es initial).0
  run_ordered es = (run-Follows es initial initial-IsCoherent).1
