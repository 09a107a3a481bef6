-- ===== src/Experience/Grouping.antt =====
-- `ExperienceEvidenceGrouper` of clc/experience/grouping.py: evidence that resembles one candidate is
-- added to it, evidence that resembles none makes a new one, evidence that resembles several is
-- reported as ambiguous.
pub mod Accounting
pub mod Proposals
use rnde_m.Prelude.{
  ℕ, ◌+◌, Bool, true, false, ◌&&◌, ◌||◌, Option, none, some, List, [], ◌∷◌, ◌++◌, map, ltb,
  if◌then◌else◌, length, select, ℤ, pos, negsuc, Result, ok, raised, key_error, value_error,
  raise_if, non_negative, Text, codes, eq_text,
}
use rnde_m.Prelude.Decimal.{decimal06}
use rnde_m.Prelude.Floats.{Floats}
use rnde_m.Prelude.State.{Method, pure, lift, gets, modify, ◌>>=◌, ◌>>◌}
use rnde_m.Patterns.Model.{contains}
use rnde_m.Experience.Evidence.{ExperienceEvidence, EvidenceComparison, compare_evidence}

pub record GroupingConfig (V : Type 0) : Type 0 where
  pub context_similarity_threshold : V
  pub action_similarity_threshold : V
  pub effect_similarity_threshold : V
  pub min_support : ℕ

-- `_MutableCandidate`, of which `ExpSMConsolidationCandidate` is a snapshot.
pub record Candidate (V : Type 0) : Type 0 where
  pub candidate_id : Text
  pub representative_evidence : ExperienceEvidence V
  pub supporting_evidence_ids : List Text
  pub first_observation_tick : ℕ
  pub last_observation_tick : ℕ

pub record ConsolidationProposal : Type 0 where
  pub proposal_id : Text
  pub candidate_id : Text
  pub representative_evidence_id : Text
  pub support_count : ℕ
  pub supporting_evidence_ids : List Text
  pub first_observation_tick : ℕ
  pub last_observation_tick : ℕ
  pub created_active_tick : ℕ

pub data GroupingStatus : Type 0 where
  created added duplicate ambiguous : GroupingStatus

pub record GroupingResult : Type 0 where
  pub status : GroupingStatus
  pub evidence_id : Text
  pub candidate_id : Option Text
  pub eligible_candidate_ids : List Text

pub record Grouper (V : Type 0) : Type 0 where
  pub candidates : List (Candidate V)
  pub observed_evidence_ids : List Text
  pub candidate_counter : ℕ
  pub proposal_counter : ℕ

abbrev pub new_grouper : {V : Type 0} → Grouper V
new_grouper = record {
  candidates = [];
  observed_evidence_ids = [];
  candidate_counter = 0;
  proposal_counter = 0;
}

-- `f"candidate:{n:06d}"` and `f"proposal:{n:06d}"`
unfoldable pub candidate_name : ℕ → Text
candidate_name n = codes "candidate:" ++ decimal06 n

unfoldable pub proposal_name : ℕ → Text
proposal_name n = codes "proposal:" ++ decimal06 n

abbrev min_ℕ : ℕ → ℕ → ℕ
min_ℕ a b = if ltb b a then b else a

abbrev max_ℕ : ℕ → ℕ → ℕ
max_ℕ a b = if ltb a b then b else a

module _ {V : Type 0} where
  -- One more occurrence for the one eligible candidate.
  abbrev pub supported : ExperienceEvidence V → Candidate V → Candidate V
  supported e c = record c {
    supporting_evidence_ids = c.supporting_evidence_ids ++ e.evidence_id ∷ [];
    first_observation_tick = min_ℕ c.first_observation_tick e.observation_tick;
    last_observation_tick = max_ℕ c.last_observation_tick e.observation_tick;
  }

  -- `eligible[0]` is the object in the list of candidates: with exactly one eligible candidate, the
  -- change of that object is the change of every eligible one.
  unfoldable pub support :
      (Candidate V → Bool) → ExperienceEvidence V → List (Candidate V) → List (Candidate V)
  support eligible e [] = []
  support eligible e (c ∷ cs) = (if eligible c then supported e c else c) ∷ support eligible e cs

  abbrev pub fresh_candidate : ℕ → ExperienceEvidence V → Candidate V
  fresh_candidate n e = record {
    candidate_id = candidate_name n;
    representative_evidence = e;
    supporting_evidence_ids = e.evidence_id ∷ [];
    first_observation_tick = e.observation_tick;
    last_observation_tick = e.observation_tick;
  }

  abbrev pub id_of : Candidate V → Text
  id_of c = c.candidate_id

  abbrev pub seen : ExperienceEvidence V → Grouper V → Grouper V
  seen e g = record g { observed_evidence_ids = e.evidence_id ∷ g.observed_evidence_ids }

  -- `observe` after the duplicate test, by the eligible candidates.
  unfoldable pub place :
      (Candidate V → Bool)
      → ExperienceEvidence V
      → List (Candidate V)
      → Grouper V
      → GroupingResult × Grouper V
  unfolding support
  place eligible e [] g =
      let n = g.candidate_counter + 1 in
      (
        record {
          status = created;
          evidence_id = e.evidence_id;
          candidate_id = some (candidate_name n);
          eligible_candidate_ids = [];
        },
        record (seen e g) {
          candidates = g.candidates ++ fresh_candidate n e ∷ [];
          candidate_counter = n;
        },
      )
  place eligible e (c ∷ []) g = (
    record {
      status = added;
      evidence_id = e.evidence_id;
      candidate_id = some c.candidate_id;
      eligible_candidate_ids = [];
    },
    record (seen e g) { candidates = support eligible e g.candidates },
  )
  place eligible e (c ∷ d ∷ cs) g = (
    record {
      status = ambiguous;
      evidence_id = e.evidence_id;
      candidate_id = none;
      eligible_candidate_ids = map id_of (c ∷ d ∷ cs);
    },
    seen e g,
  )

  -- `observe`, for any test of eligibility
  unfoldable pub observe_with :
      (ExperienceEvidence V → Candidate V → Bool)
      → ExperienceEvidence V
      → Grouper V
      → GroupingResult × Grouper V
  unfolding place
  observe_with test e g =
      if contains g.observed_evidence_ids e.evidence_id
      then (
        record {
          status = duplicate;
          evidence_id = e.evidence_id;
          candidate_id = none;
          eligible_candidate_ids = [];
        },
        g,
      )
      else place (test e) e (select (test e) g.candidates) g

  -- `next((item for item in candidates if item.candidate_id == id), None)`
  unfoldable pub find_candidate : Text → List (Candidate V) → Option (Candidate V)
  find_candidate id [] = none
  find_candidate id (c ∷ cs) = if eq_text c.candidate_id id then some c else find_candidate id cs

  abbrev require_candidate : Text → Option (Candidate V) → Result (Candidate V)
  require_candidate id none = raised (key_error id)
  require_candidate id (some c) = ok c

  unfoldable pub make_proposal :
      GroupingConfig V → Text → ℤ → Method (Grouper V) (Option ConsolidationProposal)
  make_proposal config id current_tick = do
    tick ← lift (non_negative current_tick "current_tick must be >= 0")
    candidates ← gets (λ g. g.candidates)
    c ← lift (require_candidate id (find_candidate id candidates))
    if ltb (length c.supporting_evidence_ids) config.min_support then pure none else do
      modify (λ g. record g { proposal_counter = g.proposal_counter + 1 })
      n ← gets (λ g. g.proposal_counter)
      pure (
          some (record {
            proposal_id = proposal_name n;
            candidate_id = c.candidate_id;
            representative_evidence_id = c.representative_evidence.evidence_id;
            support_count = length c.supporting_evidence_ids;
            supporting_evidence_ids = c.supporting_evidence_ids;
            first_observation_tick = c.first_observation_tick;
            last_observation_tick = c.last_observation_tick;
            created_active_tick = tick;
          }))

module _ (F : Floats) where
  open F use {Float, le_f, lt_f, zero_f, one_f}

  -- `ExperienceGroupingConfig.__post_init__`
  unfoldable pub make_config : Float → Float → Float → ℤ → Result (GroupingConfig Float)
  make_config context action effect support_needed =
      if lt_f context zero_f || lt_f one_f context
      then raised (value_error "context_similarity_threshold must be in [0,1]")
      else if lt_f action zero_f || lt_f one_f action
      then raised (value_error "action_similarity_threshold must be in [0,1]")
      else if lt_f effect zero_f || lt_f one_f effect
      then raised (value_error "effect_similarity_threshold must be in [0,1]")
      else elim support_needed [
        | negsuc n ↦ raised (value_error "min_support must be > 0")
        | pos n ↦
            if ltb 0 n
            then ok (record {
              context_similarity_threshold = context;
              action_similarity_threshold = action;
              effect_similarity_threshold = effect;
              min_support = n;
            })
            else raised (value_error "min_support must be > 0")
      ]

  -- `similarity is not None and similarity >= threshold`
  abbrev reaches : Option Float → Float → Bool
  reaches none threshold = false
  reaches (some similarity) threshold = le_f threshold similarity

  -- `_eligible`
  unfoldable pub is_eligible : GroupingConfig Float → EvidenceComparison Float → Bool
  is_eligible config c =
      c.context_comparable
      && (reaches c.context_similarity config.context_similarity_threshold
          && (c.action_comparable
              && (reaches c.action_similarity config.action_similarity_threshold
                  && (c.effect_comparable
                      && reaches c.effect_similarity config.effect_similarity_threshold))))

  -- `observe`
  unfoldable pub observe :
      GroupingConfig Float
      → ExperienceEvidence Float
      → Grouper Float
      → GroupingResult × Grouper Float
  unfolding observe_with is_eligible compare_evidence
  observe config =
      observe_with (λ e c. is_eligible config (compare_evidence F e c.representative_evidence))
