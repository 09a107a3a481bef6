-- ===== src/Examples/Experience.antt =====
-- Examples for clc/experience.
use rnde_m.Prelude.{
  ℕ, ◌+◌, ◌≤◌, ◌≡◌, refl, true, some, List, [], ◌∷◌, length, ok, pos, ℤ, Text, codes, Bool, strip,
  eq_text_refl,
}
use rnde_m.Patterns.Model.{size}
use rnde_m.Context.Causal.{RecentCausalTransition}
use rnde_m.Experience.Effects.Laws.{IsObserved, IsActivation}
use rnde_m.Experience.Evidence.{ExperienceEvidence, build_evidence}
use rnde_m.Experience.Evidence.Laws.{evidence_of, build_evidence_total}
use rnde_m.Experience.Grouping.{
  GroupingConfig, Candidate, Grouper, ConsolidationProposal, new_grouper, make_proposal,
  find_candidate, candidate_name, fresh_candidate, proposal_name,
}
use rnde_m.Experience.Grouping.Accounting.{
  support_total, occurrences, observe_all, observe_all_accounts, supports_once,
}
use rnde_m.Experience.Grouping.Proposals.{Answer, make_proposal_lem, make_proposal_supported}
use rnde_m.Examples.Thousandths.{thousandths}
use rnde_m.Examples.Sensors.{
  two_frames, two_frames-IsExternal, frame_at, push_at, two_frames-IsWindow, later_frames-IsWindow,
}

abbrev seen_once : RecentCausalTransition ℤ
seen_once = record {
  transition_id = codes "transition:000001";
  before_sensory_window = two_frames 4 5;
  action_frame = push_at 5;
  after_sensory_window = two_frames 5 6;
  action_tick = 5;
  observation_tick = 6;
}

-- A digest for the examples: the text itself.
abbrev digest : Text → Text
digest s = s

seen_once-IsObserved : IsObserved seen_once
unfolding strip
seen_once-IsObserved = record {
  named = refl;
  before_external = two_frames-IsExternal 4 5;
  after_external = two_frames-IsExternal 5 6;
  before_window = two_frames-IsWindow;
  after_window = later_frames-IsWindow;
  action_valid = record { is_action = refl; generated = refl };
  at_action = refl;
  next_tick = refl;
  same_topology = refl;
}

frame_at-IsActivation : (tick : ℕ) → IsActivation thousandths (frame_at tick (pos 300) (pos 200))
unfolding size
frame_at-IsActivation tick = record {
  sized = refl;
  in_unit = (
    record { finite = refl; not_below = refl; not_above = refl },
    (record { finite = refl; not_below = refl; not_above = refl }, tt),
  );
}

build_evidence_total_example :
    build_evidence thousandths digest seen_once ≡ ok (evidence_of thousandths digest seen_once)
build_evidence_total_example =
    build_evidence_total thousandths digest seen_once seen_once-IsObserved (frame_at-IsActivation 5)
      (frame_at-IsActivation 6)

abbrev evidence_named : Text → ExperienceEvidence ℤ
evidence_named id = record (evidence_of thousandths digest seen_once) { evidence_id = id }

abbrev any_like : ExperienceEvidence ℤ → Candidate ℤ → Bool
any_like e c = true

-- Two occurrences for one candidate, and a repeated one.
abbrev occurrences_seen : List (ExperienceEvidence ℤ)
occurrences_seen = evidence_named (1 ∷ []) ∷ evidence_named (2 ∷ []) ∷ evidence_named (1 ∷ []) ∷ []

observe_all_accounts_example :
    let (n, end) = observe_all any_like occurrences_seen new_grouper in
    support_total end.candidates + n ≡ 3
unfolding support_total
observe_all_accounts_example = observe_all_accounts any_like occurrences_seen new_grouper

supports_once_example :
    occurrences (1 ∷ []) (observe_all any_like occurrences_seen new_grouper).1.candidates ≤ 1
supports_once_example = supports_once any_like (1 ∷ []) occurrences_seen

abbrev config : GroupingConfig ℤ
config = record {
  context_similarity_threshold = pos 800;
  action_similarity_threshold = pos 900;
  effect_similarity_threshold = pos 700;
  min_support = 2;
}

abbrev grouper : Grouper ℤ
grouper = record {
  candidates =
      record (fresh_candidate 1 (evidence_named (1 ∷ []))) {
        supporting_evidence_ids = (1 ∷ []) ∷ (2 ∷ []) ∷ [];
      }
      ∷ [];
  observed_evidence_ids = (2 ∷ []) ∷ (1 ∷ []) ∷ [];
  candidate_counter = 1;
  proposal_counter = 0;
}

make_proposal_lem_example :
    Answer config
      (candidate_name 1)
      7
      grouper
      (make_proposal config (candidate_name 1) (pos 7) grouper)
make_proposal_lem_example = make_proposal_lem config (candidate_name 1) 7 grouper

abbrev proposal : ConsolidationProposal
proposal = record {
  proposal_id = proposal_name 1;
  candidate_id = candidate_name 1;
  representative_evidence_id = 1 ∷ [];
  support_count = 2;
  supporting_evidence_ids = (1 ∷ []) ∷ (2 ∷ []) ∷ [];
  first_observation_tick = 6;
  last_observation_tick = 6;
  created_active_tick = 7;
}

made : (make_proposal config (candidate_name 1) (pos 7) grouper).0 ≡ ok (some proposal)
unfolding make_proposal find_candidate proposal_name candidate_name
made = rw (eq_text_refl (candidate_name 1)) refl

make_proposal_supported_example :
    (proposal.candidate_id ≡ candidate_name 1)
    × (2 ≤ proposal.support_count)
    × (proposal.support_count ≡ length proposal.supporting_evidence_ids)
    × (proposal.created_active_tick ≡ 7)
make_proposal_supported_example =
    make_proposal_supported config (candidate_name 1) 7 grouper proposal made
