-- ===== src/Runtime/Lifecycle/Outcomes.antt =====
-- The diagram of the review states, and what a request does on every branch.
use rnde_m.Prelude.{
  ℕ, ◌≤◌, ◌<◌, ◌≡◌, ◌≢◌, refl, true, false, none, some, arith, pos, Result, Bool-cases, inl, inr,
  ok, raised, value_error, if◌then◌else◌, Text, codes, eq_text, eq_text_iff, is_empty, leb,
}
use rnde_m.Runtime.Lifecycle.{
  LifecycleState, created, review_pending, accepted_for_observation, deferred, rejected, expired,
  member, named, ReviewRecord, Answer, review_authority, state_value, leads_to, coerce_state,
  is_transition_allowed, is_write_like, arrow, answer, moved, request_known, request_transition,
  make_transition_result, make_review_record,
}

infix 40 ◌⟶◌
-- The allowed transitions as a diagram.
pub data ◌⟶◌ : LifecycleState → LifecycleState → Type 0 where
  submit : created ⟶ review_pending
  accept : review_pending ⟶ accepted_for_observation
  defer : review_pending ⟶ deferred
  reject : review_pending ⟶ rejected
  resume : deferred ⟶ review_pending
  drop_pending : review_pending ⟶ expired
  drop_accepted : accepted_for_observation ⟶ expired
  drop_deferred : deferred ⟶ expired
  drop_rejected : rejected ⟶ expired

pub ruleset edges = (
  submit, accept, defer, reject, resume, drop_pending, drop_accepted, drop_deferred, drop_rejected,
)

pub leads_to-⟶ : (a b : LifecycleState) → leads_to a b ≡ true → a ⟶ b
unfolding leads_to
leads_to-⟶ a b h = grind (arith, edges)

⟶-leads_to : {a b : LifecycleState} → a ⟶ b → leads_to a b ≡ true
unfolding leads_to
⟶-leads_to submit = refl
⟶-leads_to accept = refl
⟶-leads_to defer = refl
⟶-leads_to reject = refl
⟶-leads_to resume = refl
⟶-leads_to drop_pending = refl
⟶-leads_to drop_accepted = refl
⟶-leads_to drop_deferred = refl
⟶-leads_to drop_rejected = refl

-- No review state has a write-like name, so that guard never refuses.
never_write_like : (s : LifecycleState) → is_write_like s ≡ false
unfolding is_write_like eq_text
never_write_like created = refl
never_write_like review_pending = refl
never_write_like accepted_for_observation = refl
never_write_like deferred = refl
never_write_like rejected = refl
never_write_like expired = refl

-- The value of a state is read back as the state.
pub coerce_state-state_value : (s : LifecycleState) → coerce_state (named (state_value s)) ≡ ok s
unfolding coerce_state eq_text
coerce_state-state_value created = refl
coerce_state-state_value review_pending = refl
coerce_state-state_value accepted_for_observation = refl
coerce_state-state_value deferred = refl
coerce_state-state_value rejected = refl
coerce_state-state_value expired = refl

known_authority :
    (authority : Text) → authority ≡ review_authority → eq_text authority review_authority ≡ true
known_authority authority same = (eq_text_iff authority review_authority).1 same

module _ {V : Type 0} where
  abbrev pub reason_of : ReviewRecord V → LifecycleState → Text → Text
  reason_of r s reason = if is_empty reason then arrow r.state s else reason

  abbrev pub refusal : ReviewRecord V → LifecycleState → ℕ → Text → Result (Answer V)
  refusal r target tick why = ok (record (answer r target tick why) { allowed = false }, none)

  module _ (r : ReviewRecord V) (s : LifecycleState) (tick : ℕ) (reason notes : Text) where
    request_known_refused :
        r.proposal.commit_allowed ≡ false
        → ¬ (r.state ⟶ s)
        → request_known r s tick reason notes ≡ refusal r s tick (codes "transition_not_allowed")
    unfolding request_known make_transition_result is_transition_allowed coerce_state
    request_known_refused closed stuck = elim (Bool-cases (leads_to r.state s)) [
      | inl open_edge ↦ absurd (stuck (leads_to-⟶ r.state s open_edge))
      | inr no_edge ↦ ground (arith, never_write_like s)
    ]

    request_known_granted :
        r.proposal.commit_allowed ≡ false
        → r.state ⟶ s
        → r.created_tick ≤ tick
        → request_known r s tick reason notes
          ≡ ok (
            answer r s tick (reason_of r s reason),
            some (moved r s tick (reason_of r s reason) notes),
          )
    unfolding request_known make_transition_result make_review_record is_transition_allowed
        coerce_state
    request_known_granted closed edge after = ground (arith, never_write_like s, ⟶-leads_to edge)

    request_known_early :
        r.proposal.commit_allowed ≡ false
        → r.state ⟶ s
        → tick < r.created_tick
        → request_known r s tick reason notes
          ≡ raised (value_error "updated_tick must not be less than created_tick")
    unfolding request_known make_transition_result make_review_record is_transition_allowed
        coerce_state
    request_known_early closed edge before = ground (arith, never_write_like s, ⟶-leads_to edge)

    request_unauthorized :
        (authority : Text)
        → eq_text authority review_authority ≡ false
        → r.proposal.commit_allowed ≡ false
        → request_transition r (member s) authority (pos tick) reason notes
          ≡ refusal r r.state tick (codes "unauthorized_transition")
    unfolding request_transition make_transition_result
    request_unauthorized authority foreign closed = ground arith

    -- The four answers to a request for a state of the diagram.
    pub data Outcome (authority : Text) : Result (Answer V) → Type 0 where
      unauthorized :
          authority ≢ review_authority
          → Outcome authority (refusal r r.state tick (codes "unauthorized_transition"))
      refused :
          authority ≡ review_authority
          → ¬ (r.state ⟶ s)
          → Outcome authority (refusal r s tick (codes "transition_not_allowed"))
      granted :
          authority ≡ review_authority
          → r.state ⟶ s
          → r.created_tick ≤ tick
          → Outcome authority (
              ok (
                answer r s tick (reason_of r s reason),
                some (moved r s tick (reason_of r s reason) notes),
              ))
      early :
          authority ≡ review_authority
          → r.state ⟶ s
          → tick < r.created_tick
          → Outcome authority
              (raised (value_error "updated_tick must not be less than created_tick"))

    answered_on_edge :
        (authority : Text)
        → authority ≡ review_authority
        → r.proposal.commit_allowed ≡ false
        → r.state ⟶ s
        → Outcome authority (request_known r s tick reason notes)
    answered_on_edge authority same closed edge = elim (Bool-cases (leb r.created_tick tick)) [
      | inl h ↦
          let after : r.created_tick ≤ tick = ground arith in
          rw (request_known_granted closed edge after) (granted same edge after)
      | inr h ↦
          let before : tick < r.created_tick = ground arith in
          rw (request_known_early closed edge before) (early same edge before)
    ]

    answered :
        (authority : Text)
        → authority ≡ review_authority
        → r.proposal.commit_allowed ≡ false
        → Outcome authority (request_known r s tick reason notes)
    answered authority same closed = elim (Bool-cases (leads_to r.state s)) [
      | inl h ↦ answered_on_edge authority same closed (leads_to-⟶ r.state s h)
      | inr h ↦
          let stuck : ¬ (r.state ⟶ s) = λ edge. cc (h, ⟶-leads_to edge) in
          rw (request_known_refused closed stuck) (refused same stuck)
    ]

    -- Requests for a member of the states, on a record whose proposal is not commit-enabled: without
    -- the review authority the answer is a refusal and no record; with it, a target that the diagram
    -- does not lead to is refused; one that it leads to is granted with the moved record, unless the
    -- tick lies before the record's creation, which raises.
    pub request_transition_outcome :
        (authority : Text)
        → r.proposal.commit_allowed ≡ false
        → Outcome authority (request_transition r (member s) authority (pos tick) reason notes)
    unfolding request_transition coerce_state
    request_transition_outcome authority closed =
        elim (Bool-cases (eq_text authority review_authority)) [
          | inr foreign ↦
              rw (request_unauthorized authority foreign closed)
                (unauthorized (λ same. cc (known_authority authority same)))
          | inl trusted ↦
              rw trusted
                (answered authority ((eq_text_iff authority review_authority).0 trusted) closed)
        ]
