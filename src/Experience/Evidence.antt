-- ===== src/Experience/Evidence.antt =====
-- clc/experience/evidence.py: one occurrence of before, action and effect, and its comparison.
pub mod Laws
use rnde_m.Prelude.{
  ℕ, Bool, not, Option, List, [], ◌∷◌, ◌++◌, ◌==◌, Result, ok, ◌>>=◌, ◌>>◌, raise_if, Text, codes,
  eq_text, is_blank,
}
use rnde_m.Prelude.Floats.{Floats}
use rnde_m.Patterns.Model.{NfpFrame, eq_modality, eq_topology}
use rnde_m.Patterns.Window
use rnde_m.Patterns.Window.{NfpWindow}
use rnde_m.Patterns.Similarity.{compare_frames, compare_windows}
use rnde_m.Context.Causal.{
  RecentCausalTransition, validate_external_sensory_window, validate_action_frame,
}
use rnde_m.Experience.Effects.{ObservedEffect, extract, opaque_id, compare_effects}

pub record ExperienceEvidence (V : Type 0) : Type 0 where
  pub evidence_id : Text
  pub source_transition_id : Text
  pub context_window : NfpWindow V
  pub action_frame : NfpFrame V
  pub observed_effect : ObservedEffect V
  pub action_tick : ℕ
  pub observation_tick : ℕ

pub record EvidenceComparison (V : Type 0) : Type 0 where
  pub context_comparable : Bool
  pub context_similarity : Option V
  pub action_comparable : Bool
  pub action_similarity : Option V
  pub effect_comparable : Bool
  pub effect_similarity : Option V

-- `__post_init__`
unfoldable pub make_evidence : {V : Type 0} → ExperienceEvidence V → Result (ExperienceEvidence V)
make_evidence e = do
  raise_if (is_blank e.evidence_id) "evidence_id must be a non-empty string"
  raise_if (is_blank e.source_transition_id) "source_transition_id must be a non-empty string"
  validate_external_sensory_window e.context_window
  validate_action_frame e.action_frame
  raise_if (not (eq_text e.observed_effect.source_transition_id e.source_transition_id))
      "effect and evidence must share source transition"
  raise_if (not (eq_modality (Window.modality e.context_window) e.observed_effect.modality))
      "context and effect must share modality"
  raise_if (not (eq_topology (Window.topology e.context_window) e.observed_effect.topology))
      "context and effect must share topology"
  raise_if (not (e.action_tick == e.action_frame.active_tick))
      "action_tick must equal action frame tick"
  raise_if (not (e.action_tick == e.observed_effect.action_tick))
      "action_tick must equal effect action tick"
  raise_if (not (e.observation_tick == e.observed_effect.observation_tick))
      "observation_tick must equal effect observation tick"
  ok e

module _ (F : Floats) where
  open F use {Float}

  -- `ExperienceEvidenceFactory.build`; the id's material joins two texts as `opaque_id` does
  unfoldable pub build_evidence :
      (Text → Text) → RecentCausalTransition Float → Result (ExperienceEvidence Float)
  unfolding make_evidence extract
  build_evidence digest t = do
    effect ← extract F digest t
    make_evidence (record {
      evidence_id = opaque_id digest (codes "evidence") (t.transition_id ∷ effect.effect_id ∷ []);
      source_transition_id = t.transition_id;
      context_window = t.before_sensory_window;
      action_frame = t.action_frame;
      observed_effect = effect;
      action_tick = t.action_tick;
      observation_tick = t.observation_tick;
    })

  -- `ExperienceEvidenceComparison.compare`
  unfoldable pub compare_evidence :
      ExperienceEvidence Float → ExperienceEvidence Float → EvidenceComparison Float
  unfolding compare_windows compare_frames compare_effects
  compare_evidence left right =
      let context = compare_windows F left.context_window right.context_window in
      let action = compare_frames F left.action_frame right.action_frame in
      let effect = compare_effects F left.observed_effect right.observed_effect in
      record {
        context_comparable = context.comparable;
        context_similarity = context.score;
        action_comparable = action.comparable;
        action_similarity = action.score;
        effect_comparable = effect.comparable;
        effect_similarity = effect.score;
      }
