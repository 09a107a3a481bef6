-- ===== src/Runtime/Lifecycle/Reach.antt =====
-- Records over a sequence of requests: the states that they reach.
use rnde_m.Prelude.{
  ℕ, suc, ◌+◌, ◌≤◌, ◌≡◌, ◌⊎◌, refl, sym, ◌∙◌, subst, true, none, some, List, [], ◌∷◌, arith, length,
  length-append, ℤ, pos, negsuc, Result, ok, raised, Text, Result-cases, inl, inr,
}
use rnde_m.Runtime.Lifecycle.{
  LifecycleState, StateArgument, ReviewRecord, TransitionResult, Answer, leads_to, coerce_state,
  is_transition_allowed, moved, request_known, request_transition, make_transition_result,
  make_review_record,
}
use rnde_m.Runtime.Lifecycle.Outcomes.{reason_of, ◌⟶◌, leads_to-⟶}

pub record Request : Type 0 where
  pub target : StateArgument
  pub authority : Text
  pub tick : ℤ
  pub reason : Text
  pub notes : Text

-- The states along a run of allowed transitions, the last one first, with their number.
pub data Steps (from : LifecycleState) : ℕ → LifecycleState → Type 0 where
  start : Steps from 0 from
  then : {n : ℕ} {a b : LifecycleState} → Steps from n a → a ⟶ b → Steps from (suc n) b

module _ {V : Type 0} where
  abbrev pub kept : ReviewRecord V → Result (Answer V) → ReviewRecord V
  kept r (ok (result, some next)) = next
  kept r (ok (result, none)) = r
  kept r (raised e) = r

  abbrev pub ask : ReviewRecord V → Request → Result (Answer V)
  ask r q = request_transition r q.target q.authority q.tick q.reason q.notes

  -- The record after each request, the old one where there is no new one.
  unfoldable pub follow : ReviewRecord V → List Request → ReviewRecord V
  follow r [] = r
  follow r (q ∷ qs) = follow (kept r (ask r q)) qs

  -- What a new record has from the old one.
  pub record Moves (r next : ReviewRecord V) : Type 0 where
    pub edge : r.state ⟶ next.state
    pub same_proposal : next.proposal ≡ r.proposal
    pub same_creation : next.created_tick ≡ r.created_tick
    pub same_ttl : next.ttl_ticks ≡ r.ttl_ticks
    pub not_early : next.created_tick ≤ next.updated_tick
    pub longer : length next.transition_history ≡ suc (length r.transition_history)

  request_known-Moves :
      (r : ReviewRecord V) (s : LifecycleState) (tick : ℕ) (reason notes : Text)
      (result : TransitionResult V) (next : ReviewRecord V)
      → request_known r s tick reason notes ≡ ok (result, some next)
      → (leads_to r.state s ≡ true)
        × (r.created_tick ≤ tick)
        × ((why : Text) × (next ≡ moved r s tick why notes))
  unfolding request_known make_transition_result make_review_record is_transition_allowed
      coerce_state
  request_known-Moves r s tick reason notes result next e =
      (ground arith, ground arith, (reason_of r s reason, ground arith))

  moved-Moves :
      (r : ReviewRecord V) (s : LifecycleState) (tick : ℕ) (why notes : Text)
      → r.state ⟶ s
      → r.created_tick ≤ tick
      → Moves r (moved r s tick why notes)
  moved-Moves r s tick why notes edge after = record {
    edge = edge;
    same_proposal = refl;
    same_creation = refl;
    same_ttl = refl;
    not_early = after;
    longer = omega (arith, length-append {0} r.transition_history);
  }

  request_known_of :
      (r : ReviewRecord V) (target : StateArgument) (authority : Text) (tick : ℤ)
      (reason notes : Text) (result : TransitionResult V) (next : ReviewRecord V)
      → request_transition r target authority tick reason notes ≡ ok (result, some next)
      → (s : LifecycleState) × (t : ℕ) × (request_known r s t reason notes ≡ ok (result, some next))
  unfolding request_transition make_transition_result
  request_known_of r target authority (negsuc n) reason notes result next e = absurd (ground arith)
  request_known_of r target authority (pos t) reason notes result next e =
      elim (Result-cases (coerce_state target)) [
        | inl (x, unknown) ↦ absurd (ground arith)
        | inr (s, known) ↦ (s, t, ground arith)
      ]

  pub ask-Moves :
      (r : ReviewRecord V) (q : Request) (a : Result (Answer V))
      → ask r q ≡ a
      → (kept r a ≡ r) ⊎ Moves r (kept r a)
  ask-Moves r q (ok (result, some next)) e =
      let (s, tick, known) =
        request_known_of r q.target q.authority q.tick q.reason q.notes result next e in
      let (edge, after, (why, same)) =
        request_known-Moves r s tick q.reason q.notes result next known in
      inr (
        subst (Moves r) (sym same)
          (moved-Moves r s tick why q.notes (leads_to-⟶ r.state s edge) after))
  ask-Moves r q (ok (result, none)) e = inl refl
  ask-Moves r q (raised x) e = inl refl

  -- What a sequence of requests has made of a record.
  pub record Reached (r : ReviewRecord V) (n : ℕ) (next : ReviewRecord V) : Type 0 where
    pub path : Steps r.state n next.state
    pub same_proposal : next.proposal ≡ r.proposal
    pub same_creation : next.created_tick ≡ r.created_tick
    pub same_ttl : next.ttl_ticks ≡ r.ttl_ticks
    pub not_early : next.created_tick ≤ next.updated_tick
    pub logged : length next.transition_history ≡ length r.transition_history + n

  Moves-Reached :
      (r now next : ReviewRecord V) (n : ℕ)
      → Reached r n now
      → Moves now next
      → Reached r (suc n) next
  Moves-Reached r now next n h m = record {
    path = then h.path m.edge;
    same_proposal = m.same_proposal ∙ h.same_proposal;
    same_creation = m.same_creation ∙ h.same_creation;
    same_ttl = m.same_ttl ∙ h.same_ttl;
    not_early = m.not_early;
    logged = omega arith;
  }

  follow-Reached :
      (r now : ReviewRecord V) (qs : List Request) (n : ℕ)
      → Reached r n now
      → (k : ℕ) × Reached r k (follow now qs)
  unfolding follow
  follow-Reached r now [] n h = (n, h)
  follow-Reached r now (q ∷ qs) n h = elim (ask-Moves now q (ask now q) refl) [
    | inl same ↦ follow-Reached r (kept now (ask now q)) qs n (subst (Reached r n) (sym same) h)
    | inr moves ↦
        follow-Reached r (kept now (ask now q)) qs (suc n)
          (Moves-Reached r now (kept now (ask now q)) n h moves)
  ]

  -- Whatever is asked of a record, by whom and when, its state only moves along the diagram, one
  -- entry of the history for each step; the proposal, the creation tick and the lifetime stay, and
  -- the update is never dated before the creation.
  pub follow-Steps :
      (r : ReviewRecord V) (qs : List Request)
      → r.created_tick ≤ r.updated_tick
      → (n : ℕ) × Reached r n (follow r qs)
  follow-Steps r qs h = follow-Reached r r qs 0 (record {
    path = start;
    same_proposal = refl;
    same_creation = refl;
    same_ttl = refl;
    not_early = h;
    logged = omega arith;
  })
