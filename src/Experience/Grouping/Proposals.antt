-- ===== src/Experience/Grouping/Proposals.antt =====
-- Proposals are made of candidates with enough support, and of nothing else.
use rnde_m.Prelude.{
  ℕ, ◌+◌, ◌≤◌, ◌<◌, ◌≡◌, Option, none, some, List, [], ◌∷◌, arith, length, pos, ok, raised,
  key_error, Text, eq_text_iff, Option-cases, Bool-cases, Result, ltb, inl, inr,
}
use rnde_m.Experience.Grouping.{
  Candidate, Grouper, GroupingConfig, ConsolidationProposal, find_candidate, make_proposal,
  proposal_name,
}

module _ {V : Type 0} where
  -- The proposal of a candidate, with its number and the tick of the call.
  abbrev pub proposal_of : Candidate V → ℕ → ℕ → ConsolidationProposal
  proposal_of c n tick = record {
    proposal_id = proposal_name n;
    candidate_id = c.candidate_id;
    representative_evidence_id = c.representative_evidence.evidence_id;
    support_count = length c.supporting_evidence_ids;
    supporting_evidence_ids = c.supporting_evidence_ids;
    first_observation_tick = c.first_observation_tick;
    last_observation_tick = c.last_observation_tick;
    created_active_tick = tick;
  }

  -- The answers to a call for a proposal at a tick.
  pub data Answer (config : GroupingConfig V) (id : Text) (tick : ℕ) (g : Grouper V)
      : Result (Option ConsolidationProposal) × Grouper V → Type 0 where
    unknown :
        find_candidate id g.candidates ≡ none → Answer config id tick g (raised (key_error id), g)
    unsupported :
        (c : Candidate V)
        → find_candidate id g.candidates ≡ some c
        → length c.supporting_evidence_ids < config.min_support
        → Answer config id tick g (ok none, g)
    proposed :
        (c : Candidate V)
        → find_candidate id g.candidates ≡ some c
        → config.min_support ≤ length c.supporting_evidence_ids
        → Answer config id tick g (
          ok (some (proposal_of c (g.proposal_counter + 1) tick)),
          record g { proposal_counter = g.proposal_counter + 1 },
        )

  answer_of_found :
      (config : GroupingConfig V) (id : Text) (tick : ℕ) (g : Grouper V) (c : Candidate V)
      → find_candidate id g.candidates ≡ some c
      → Answer config id tick g (make_proposal config id (pos tick) g)
  unfolding make_proposal
  answer_of_found config id tick g c found =
      elim (Bool-cases (ltb (length c.supporting_evidence_ids) config.min_support)) [
        | inl h ↦
            let few : length c.supporting_evidence_ids < config.min_support = ground arith in
            rw (found, h) (unsupported c found few)
        | inr h ↦
            let enough : config.min_support ≤ length c.supporting_evidence_ids = ground arith in
            rw (found, h) (proposed c found enough)
      ]

  -- Asked for a proposal at a tick that is no error: an unknown candidate id raises `KeyError` with
  -- that id; a known one with too little support gives none; both change nothing. With enough
  -- support the proposal is the candidate's, under the next number, and only the counter moves.
  pub make_proposal_lem :
      (config : GroupingConfig V) (id : Text) (tick : ℕ) (g : Grouper V)
      → Answer config id tick g (make_proposal config id (pos tick) g)
  unfolding make_proposal
  make_proposal_lem config id tick g = elim (Option-cases (find_candidate id g.candidates)) [
    | inl missing ↦ rw missing (unknown missing)
    | inr (c, found) ↦ answer_of_found config id tick g c found
  ]

  -- A candidate that is found has the id.
  find_candidate-id :
      (id : Text) (cs : List (Candidate V)) (c : Candidate V)
      → find_candidate id cs ≡ some c
      → c.candidate_id ≡ id
  unfolding find_candidate
  find_candidate-id id [] c e = absurd (cc)
  find_candidate-id id (d ∷ cs) c e =
      ground (arith, eq_text_iff d.candidate_id id, find_candidate-id id cs c)

  -- A proposal for a candidate id names that candidate, has at least the required support, and
  -- counts the evidence ids that it lists.
  pub make_proposal_supported :
      (config : GroupingConfig V) (id : Text) (tick : ℕ) (g : Grouper V) (p : ConsolidationProposal)
      → (make_proposal config id (pos tick) g).0 ≡ ok (some p)
      → (p.candidate_id ≡ id)
        × (config.min_support ≤ p.support_count)
        × (p.support_count ≡ length p.supporting_evidence_ids)
        × (p.created_active_tick ≡ tick)
  unfolding make_proposal
  make_proposal_supported config id tick g p e =
      elim (Option-cases (find_candidate id g.candidates)) [
        | inl missing ↦ absurd (ground arith)
        | inr (c, found) ↦ ground (arith, find_candidate-id id g.candidates c found)
      ]
