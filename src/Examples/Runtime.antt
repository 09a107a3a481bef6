-- ===== src/Examples/Runtime.antt =====
-- Examples for clc/runtime.
use rnde_m.Prelude.{
  ℕ, ◌+◌, ◌≡◌, refl, false, none, some, List, [], ◌∷◌, arith, ok, length, ℤ, pos, codes, eq_text,
  Text, strip, ◌≤◌,
}
use rnde_m.Prelude.Decimal.{decimal}
use rnde_m.Runtime.Metadata.{
  MetadataEntry, Placement, PlacementRequest, text, harness_authority, allows, expire_metadata,
  list_active_metadata, place_temporary_metadata, entry_of, make_entry, entry_name, texts_of,
  is_within, starts_with,
}
use rnde_m.Runtime.Metadata.Laws.{expire_unseen}
use rnde_m.Runtime.Proposal.{AssociationProposal}
use rnde_m.Runtime.Lifecycle.{
  LifecycleState, created, review_pending, accepted_for_observation, deferred, named, member,
  ReviewRecord, review_authority, state_value, coerce_state, request_transition, is_write_like,
  is_transition_allowed, leads_to, request_known, make_transition_result, make_review_record,
}
use rnde_m.Runtime.Lifecycle.Outcomes.{Outcome, request_transition_outcome}
use rnde_m.Runtime.Lifecycle.Reach.{Request, Reached, follow, follow-Steps}
use rnde_m.Runtime.Lifecycle.Review.{PassedReview, follow_reviewed}

abbrev proposal : AssociationProposal ℤ
proposal = record {
  source = codes "thought";
  tick = pos 3;
  subject_id = codes "pattern:1";
  relation_type = codes "follows";
  object_id = codes "pattern:2";
  confidence = pos 600;
  evidence = codes "evidence:1" ∷ [];
  reason = codes "seen twice";
  commit_allowed = false;
}

abbrev in_state : LifecycleState → ReviewRecord ℤ
in_state state = record {
  proposal = proposal;
  state = state;
  created_tick = 3;
  updated_tick = 3;
  ttl_ticks = some 9;
  review_reason = [];
  review_notes = [];
  transition_history = [];
}

abbrev asking : LifecycleState → ℕ → Request
asking target tick = record {
  target = named (state_value target);
  authority = review_authority;
  tick = pos tick;
  reason = [];
  notes = [];
}

-- Accepted only after the review: the first request is refused.
abbrev requests : List Request
requests =
    asking accepted_for_observation 4
    ∷ asking review_pending 5
    ∷ asking accepted_for_observation 6
    ∷ []

request_transition_outcome_example :
    Outcome (in_state review_pending) deferred 4 (codes "later") [] review_authority (
      request_transition
        (in_state review_pending)
        (member deferred)
        review_authority
        (pos 4)
        (codes "later")
        [])
request_transition_outcome_example =
    request_transition_outcome (in_state review_pending) deferred 4 (codes "later") []
      review_authority refl

follow-Steps_example : (n : ℕ) × Reached (in_state created) n (follow (in_state created) requests)
follow-Steps_example = follow-Steps (in_state created) requests (omega arith)

requests_accept : (follow (in_state created) requests).state ≡ accepted_for_observation
unfolding follow request_transition request_known coerce_state is_write_like is_transition_allowed
    eq_text leads_to make_transition_result make_review_record
requests_accept = refl

follow_reviewed_example :
    PassedReview (in_state created) requests
    × (0 + 2 ≤ length (follow (in_state created) requests).transition_history)
follow_reviewed_example =
    follow_reviewed (in_state created) requests (omega arith) refl requests_accept

-- `str.lower` of a text without capitals.
abbrev lower : Text → Text
lower s = s

abbrev entry_until : ℕ → MetadataEntry ℕ
entry_until tick = record {
  entry_id = codes "test:probe:1:0";
  namespace = codes "test";
  source = codes "probe";
  payload_kind = codes "metadata";
  payload_reference = [];
  payload = [];
  created_tick = 1;
  updated_tick = 1;
  ttl_ticks = none;
  expires_at_tick = tick;
  notes = [];
}

abbrev placement : Placement
placement = record {
  policy = record { authority = none };
  entries = entry_until 4 ∷ entry_until 9 ∷ [];
}

expire_unseen_example :
    let (gone, after) = expire_metadata (pos 5) (some harness_authority) placement in
    (list_active_metadata (pos 7) (some harness_authority) after
      ≡ list_active_metadata (pos 7) (some harness_authority) placement)
    × ((es : List (MetadataEntry ℕ)) × (gone ≡ ok es)
        × (length es + length after.entries ≡ length placement.entries))
expire_unseen_example =
    expire_unseen placement (some harness_authority) (some harness_authority) 5 7 (omega arith)

abbrev placing : PlacementRequest
placing = record {
  payload = (codes "k", text (codes "v")) ∷ [];
  namespace = codes "n";
  source = codes "s";
  created_tick = pos 2;
  ttl_ticks = some (pos 3);
  expires_at_tick = none;
  notes = [];
  payload_kind = codes "m";
  payload_reference = [];
}

abbrev placed : MetadataEntry ℕ
placed = record {
  entry_id = codes "n:s:2:2";
  namespace = codes "n";
  source = codes "s";
  payload_kind = codes "m";
  payload_reference = [];
  payload = (codes "k", text (codes "v")) ∷ [];
  created_tick = 2;
  updated_tick = 2;
  ttl_ticks = some 3;
  expires_at_tick = 5;
  notes = [];
}

placing-placed :
    (place_temporary_metadata lower placing (some harness_authority) placement).0.entry
    ≡ some placed
unfolding place_temporary_metadata entry_of make_entry allows eq_text strip entry_name decimal
    is_within starts_with texts_of
placing-placed = refl
