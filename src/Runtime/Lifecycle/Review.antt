-- ===== src/Runtime/Lifecycle/Review.antt =====
-- Records that end up accepted: the review that they went through
-- (clc/runtime/akbsm_proposal_lifecycle.py).
use rnde_m.Prelude.{
  ℕ, ◌+◌, ◌≤◌, ◌≡◌, ◌≢◌, ◌⊎◌, refl, ap, subst, none, some, List, [], ◌∷◌, ◌++◌, arith, length, ℤ,
  pos, negsuc, Result, ok, raised, Text, eq_text, eq_text_iff, Bool-cases, inl, inr,
}
use rnde_m.Runtime.Lifecycle.{
  LifecycleState, created, review_pending, accepted_for_observation, deferred, rejected, expired,
  ReviewRecord, TransitionResult, review_authority, request_transition, make_transition_result,
  Answer, StateArgument,
}
use rnde_m.Runtime.Lifecycle.Outcomes.{◌⟶◌, submit}
use rnde_m.Runtime.Lifecycle.Reach.{
  Request, Steps, start, then, kept, ask, follow, ask-Moves, follow-Steps,
}

expired_is_final : {a b : LifecycleState} → a ⟶ b → a ≡ expired → ⊥
expired_is_final submit h = cc
expired_is_final _ h = cc

accepted_from_pending :
    {a b : LifecycleState} → a ⟶ b → b ≡ accepted_for_observation → a ≡ review_pending
accepted_from_pending submit h = cc
accepted_from_pending _ h = cc

accepted_to_expired : {a b : LifecycleState} → a ⟶ b → a ≡ accepted_for_observation → b ≡ expired
accepted_to_expired submit h = cc
accepted_to_expired _ h = cc

is_accepted : (s : LifecycleState) → (s ≡ accepted_for_observation) ⊎ (s ≢ accepted_for_observation)
is_accepted accepted_for_observation = inl refl
is_accepted created = inr (λ h. cc)
is_accepted review_pending = inr (λ h. cc)
is_accepted deferred = inr (λ h. cc)
is_accepted rejected = inr (λ h. cc)
is_accepted expired = inr (λ h. cc)

pending_after_one : {n : ℕ} {s : LifecycleState} → Steps created n s → s ≡ review_pending → 1 ≤ n
pending_after_one start h = absurd (cc)
pending_after_one (then p e) h = omega arith

accepted_after_two :
    {n : ℕ} {s : LifecycleState} → Steps created n s → s ≡ accepted_for_observation → 2 ≤ n
accepted_after_two start h = absurd (cc)
accepted_after_two (then p e) h = omega (arith, pending_after_one p (accepted_from_pending e h))

module _ {V : Type 0} where
  follow-expired : (r : ReviewRecord V) (qs : List Request) → r.state ≡ expired → follow r qs ≡ r
  unfolding follow
  follow-expired r [] h = refl
  follow-expired r (q ∷ qs) h = elim (ask-Moves r q (ask r q) refl) [
    | inl same ↦ rw same (follow-expired r qs h)
    | inr moves ↦ absurd (expired_is_final moves.edge h)
  ]

  -- An accepted record that stays accepted is not changed.
  follow-accepted :
      (r : ReviewRecord V) (qs : List Request)
      → r.state ≡ accepted_for_observation
      → (follow r qs).state ≡ accepted_for_observation
      → follow r qs ≡ r
  unfolding follow
  follow-accepted r [] h k = refl
  follow-accepted r (q ∷ qs) h k = elim (ask-Moves r q (ask r q) refl) [
    | inl same ↦ rw same (
        follow-accepted r qs h (subst (λ x. (follow x qs).state ≡ accepted_for_observation) same k))
    | inr moves ↦
        let gone = accepted_to_expired moves.edge h in
        let stays = follow-expired (kept r (ask r q)) qs gone in
        let left : (follow (kept r (ask r q)) qs).state ≡ accepted_for_observation = k in
        absurd (cc (left, stays, gone))
  ]

  request_authorised :
      (r : ReviewRecord V) (target : StateArgument) (authority : Text) (tick : ℤ)
      (reason notes : Text) (result : TransitionResult V) (next : ReviewRecord V)
      → request_transition r target authority tick reason notes ≡ ok (result, some next)
      → authority ≡ review_authority
  unfolding request_transition make_transition_result
  request_authorised r target authority (negsuc n) reason notes result next e =
      absurd (ground arith)
  request_authorised r target authority (pos t) reason notes result next e =
      elim (Bool-cases (eq_text authority review_authority)) [
        | inl trusted ↦ (eq_text_iff authority review_authority).0 trusted
        | inr foreign ↦ absurd (ground arith)
      ]

  -- Only a request with the review authority changes the record.
  kept_authorised :
      (r : ReviewRecord V) (q : Request) (a : Result (Answer V))
      → ask r q ≡ a
      → (kept r a ≢ r)
      → q.authority ≡ review_authority
  kept_authorised r q (ok (result, some next)) e h =
      request_authorised r q.target q.authority q.tick q.reason q.notes result next e
  kept_authorised r q (ok (result, none)) e h = absurd (h refl)
  kept_authorised r q (raised x) e h = absurd (h refl)

  -- Among the requests there is one with the review authority that found the record pending review
  -- and accepted it; nothing changed the record afterwards.
  pub record PassedReview (r : ReviewRecord V) (qs : List Request) : Type 0 where
    pub before : List Request
    pub review : Request
    pub after : List Request
    pub split : qs ≡ before ++ review ∷ after
    pub pending : (follow r before).state ≡ review_pending
    pub authorised : review.authority ≡ review_authority
    pub accepted : (follow r (before ++ review ∷ [])).state ≡ accepted_for_observation
    pub final : follow r qs ≡ follow r (before ++ review ∷ [])

  reviewed_now :
      (r : ReviewRecord V) (q : Request) (qs : List Request)
      → r.state ≢ accepted_for_observation
      → (kept r (ask r q)).state ≡ accepted_for_observation
      → (follow r (q ∷ qs)).state ≡ accepted_for_observation
      → PassedReview r (q ∷ qs)
  unfolding follow
  reviewed_now r q qs h now k = elim (ask-Moves r q (ask r q) refl) [
    | inl same ↦
        absurd (h (subst (λ (x : ReviewRecord V). x.state ≡ accepted_for_observation) same now))
    | inr moves ↦ record {
      before = [];
      review = q;
      after = qs;
      split = refl;
      pending = accepted_from_pending moves.edge now;
      authorised =
          kept_authorised r q (ask r q) refl (λ same.
            h (subst (λ (x : ReviewRecord V). x.state ≡ accepted_for_observation) same now));
      accepted = now;
      final = follow-accepted (kept r (ask r q)) qs now k;
    }
  ]

  follow-PassedReview :
      (r : ReviewRecord V) (qs : List Request)
      → r.state ≢ accepted_for_observation
      → (follow r qs).state ≡ accepted_for_observation
      → PassedReview r qs
  unfolding follow
  follow-PassedReview r [] h k = absurd (h k)
  follow-PassedReview r (q ∷ qs) h k = elim (is_accepted (kept r (ask r q)).state) [
    | inl now ↦ reviewed_now r q qs h now k
    | inr later ↦
        let rest = follow-PassedReview (kept r (ask r q)) qs later k in
        record {
          before = q ∷ rest.before;
          review = rest.review;
          after = rest.after;
          split = ap (λ (l : List Request). q ∷ l) rest.split;
          pending = rest.pending;
          authorised = rest.authorised;
          accepted = rest.accepted;
          final = rest.final;
        }
  ]

  -- A new record that ends up accepted for observation has gone through review: among the requests
  -- there is one that bears the review authority, before which the record itself is pending review
  -- and after which it is accepted, and which is the last to change it. Its history has grown by at
  -- least two entries.
  pub follow_reviewed :
      (r : ReviewRecord V) (qs : List Request)
      → r.created_tick ≤ r.updated_tick
      → r.state ≡ created
      → (follow r qs).state ≡ accepted_for_observation
      → PassedReview r qs
        × (length r.transition_history + 2 ≤ length (follow r qs).transition_history)
  follow_reviewed r qs h new accepted =
      let (k, reached) = follow-Steps r qs h in
      let path = subst (λ (s : LifecycleState). Steps s k (follow r qs).state) new reached.path in
      let two = accepted_after_two path accepted in
      (follow-PassedReview r qs (λ e. cc) accepted, omega arith)
