-- ===== src/Runtime/Lifecycle.antt =====
-- clc/runtime/akbsm_proposal_lifecycle.py: the review states of a draft proposal and the
-- controller that moves a record along the allowed transitions.
pub mod Outcomes
pub mod Reach
pub mod Review
use rnde_m.Prelude.{
  ℕ, ◌≡◌, ◌↔◌, Bool, true, false, not, ◌||◌, Option, none, some, List, [], ◌∷◌, ◌++◌, arith, ltb,
  ◌==◌, if◌then◌else◌, any, ℤ, pos, Checked, Result, ok, raised, value_error, ◌>>=◌, ◌>>◌, raise_if,
  non_negative, Text, codes, eq_text, is_empty,
}
use rnde_m.Prelude.Decimal.{decimal}
use rnde_m.Runtime.Proposal.{AssociationProposal}

pub data LifecycleState : Type 0 where
  created review_pending accepted_for_observation deferred rejected expired : LifecycleState

-- `state.value`
abbrev pub state_value : LifecycleState → Text
state_value created = codes "created"
state_value review_pending = codes "review_pending"
state_value accepted_for_observation = codes "accepted_for_observation"
state_value deferred = codes "deferred"
state_value rejected = codes "rejected"
state_value expired = codes "expired"

abbrev state_tag : LifecycleState → ℕ
state_tag created = 0
state_tag review_pending = 1
state_tag accepted_for_observation = 2
state_tag deferred = 3
state_tag rejected = 4
state_tag expired = 5

unfoldable pub eq_state : LifecycleState → LifecycleState → Bool
eq_state a b = state_tag a == state_tag b

-- A state as callers give it: a member of the enumeration or its value.
pub data StateArgument : Type 0 where
  member : LifecycleState → StateArgument
  named : Text → StateArgument

abbrev unknown_state : Result LifecycleState
unknown_state = raised (value_error "unknown AKBSM proposal lifecycle state")

-- `_coerce_state`
unfoldable pub coerce_state : StateArgument → Result LifecycleState
coerce_state (member s) = ok s
coerce_state (named t) =
    if eq_text t (state_value created)
    then ok created
    else if eq_text t (state_value review_pending)
    then ok review_pending
    else if eq_text t (state_value accepted_for_observation)
    then ok accepted_for_observation
    else if eq_text t (state_value deferred)
    then ok deferred
    else if eq_text t (state_value rejected)
    then ok rejected
    else if eq_text t (state_value expired)
    then ok expired
    else unknown_state

-- `AKBSM_PROPOSAL_ALLOWED_TRANSITIONS`
unfoldable pub allowed_transitions : LifecycleState → List LifecycleState
allowed_transitions created = review_pending ∷ []
allowed_transitions review_pending = accepted_for_observation ∷ deferred ∷ rejected ∷ expired ∷ []
allowed_transitions accepted_for_observation = expired ∷ []
allowed_transitions deferred = review_pending ∷ expired ∷ []
allowed_transitions rejected = expired ∷ []
allowed_transitions expired = []

-- `AKBSM_PROPOSAL_FORBIDDEN_WRITE_LIKE_STATE_NAMES`
abbrev pub write_like_names : List Text
write_like_names =
    codes "committed"
    ∷ codes "applied"
    ∷ codes "persisted"
    ∷ codes "written"
    ∷ codes "saved"
    ∷ codes "accepted_for_write"
    ∷ codes "ready_to_write"
    ∷ codes "approved_for_akbsm"
    ∷ []

-- `AKBSM_PROPOSAL_REVIEW_TEST_SCENARIO_AUTHORITY`
abbrev pub review_authority : Text
review_authority = codes "explicit_test_scenario_harness"

pub record ReviewRecord (V : Type 0) : Type 0 where
  pub proposal : AssociationProposal V
  pub state : LifecycleState
  pub created_tick : ℕ
  pub updated_tick : ℕ
  pub ttl_ticks : Option ℕ
  pub review_reason : Text
  pub review_notes : Text
  pub transition_history : List Text

pub record TransitionResult (V : Type 0) : Type 0 where
  pub proposal : AssociationProposal V
  pub from_state : LifecycleState
  pub to_state : LifecycleState
  pub allowed : Bool
  pub reason : Text
  pub tick : ℕ

module _ {V : Type 0} where
  -- `__post_init__` of the two records, on fields whose integers have been seen to be non-negative.
  unfoldable pub make_review_record : ReviewRecord V → Result (ReviewRecord V)
  make_review_record r = do
    raise_if (ltb r.updated_tick r.created_tick) "updated_tick must not be less than created_tick"
    raise_if r.proposal.commit_allowed "proposal commit_allowed must remain False"
    ok r

  unfoldable pub make_transition_result : TransitionResult V → Result (TransitionResult V)
  make_transition_result r = do
    raise_if r.proposal.commit_allowed "proposal commit_allowed must remain False"
    ok r

-- `target_state in AKBSM_PROPOSAL_ALLOWED_TRANSITIONS[source_state]`
unfoldable pub leads_to : LifecycleState → LifecycleState → Bool
unfolding eq_state allowed_transitions
leads_to from to = any (eq_state to) (allowed_transitions from)

unfoldable pub is_transition_allowed : StateArgument → StateArgument → Bool
is_transition_allowed from to = elim (coerce_state from) [
  | raised e ↦ false
  | ok source ↦ elim (coerce_state to) [ raised e ↦ false | ok target ↦ leads_to source target ]
]

-- `target.value in AKBSM_PROPOSAL_FORBIDDEN_WRITE_LIKE_STATE_NAMES`
unfoldable pub is_write_like : LifecycleState → Bool
is_write_like s = any (eq_text (state_value s)) write_like_names

-- `f"{from}->{to}"`
abbrev pub arrow : LifecycleState → LifecycleState → Text
arrow from to = state_value from ++ (codes "->" ++ state_value to)

abbrev pub Answer : Type 0 → Type 0
Answer V = TransitionResult V × Option (ReviewRecord V)

module _ {V : Type 0} where
  -- `_rejected`
  unfoldable pub refuse : ReviewRecord V → LifecycleState → ℕ → Text → Result (Answer V)
  refuse r target tick why = do
    result ← make_transition_result (record {
      proposal = r.proposal;
      from_state = r.state;
      to_state = target;
      allowed = false;
      reason = why;
      tick = tick;
    })
    ok (result, none)

  abbrev pub answer : ReviewRecord V → LifecycleState → ℕ → Text → TransitionResult V
  answer r target tick why = record {
    proposal = r.proposal;
    from_state = r.state;
    to_state = target;
    allowed = true;
    reason = why;
    tick = tick;
  }

  abbrev pub moved : ReviewRecord V → LifecycleState → ℕ → Text → Text → ReviewRecord V
  moved r target tick why notes = record r {
    state = target;
    updated_tick = tick;
    review_reason = why;
    review_notes = notes;
    transition_history =
        r.transition_history ++ (arrow r.state target ++ (codes "@" ++ decimal tick)) ∷ [];
  }

  -- The end of `request_transition`, once the transition is known to be allowed.
  unfoldable pub grant : ReviewRecord V → LifecycleState → ℕ → Text → Text → Result (Answer V)
  grant r target tick reason notes = do
    let why = if is_empty reason then arrow r.state target else reason
    result ← make_transition_result (answer r target tick why)
    next ← make_review_record (moved r target tick why notes)
    ok (result, some next)

  unfoldable pub request_known :
      ReviewRecord V → LifecycleState → ℕ → Text → Text → Result (Answer V)
  unfolding refuse grant
  request_known r target tick reason notes =
      if is_write_like target
      then refuse r r.state tick (codes "write_like_target_state")
      else if not (is_transition_allowed (member r.state) (member target))
      then refuse r target tick (codes "transition_not_allowed")
      else grant r target tick reason notes

  unfoldable pub request_transition :
      ReviewRecord V → StateArgument → Text → ℤ → Text → Text → Result (Answer V)
  unfolding request_known
  request_transition r target authority tick reason notes = do
    t ← non_negative tick "tick must be a non-negative integer"
    if not (eq_text authority review_authority)
        then refuse r r.state t (codes "unauthorized_transition")
        else elim (coerce_state target) [
          | raised e ↦ refuse r r.state t (codes "invalid_target_state")
          | ok s ↦ request_known r s t reason notes
        ]

  unfoldable pub request_expiration : ReviewRecord V → Text → ℤ → Text → Text → Result (Answer V)
  unfolding request_transition
  request_expiration r authority tick reason notes =
      request_transition r (member expired) authority tick reason notes
