-- ===== src/Experience/Evidence/Laws.antt =====
-- Evidence of a completed transition.
use rnde_m.Prelude.{◌≡◌, refl, sym, [], ◌∷◌, arith, ok, Text, codes, is_space, eq_text_refl}
use rnde_m.Prelude.Floats.{Floats}
use rnde_m.Patterns.Model.{eq_modality_iff}
use rnde_m.Patterns.Window.{last_frame, modality, topology}
use rnde_m.Patterns.Window.Laws.{eq_topology_iff}
use rnde_m.Context.Causal.{RecentCausalTransition}
use rnde_m.Context.Causality.{validate_external_sensory_window_iff, validate_action_frame_iff}
use rnde_m.Experience.Effects.{opaque_id}
use rnde_m.Experience.Effects.Laws.{
  IsObserved, IsActivation, effect_of, extract_total, opaque_id-blank, last_frame-Shares,
}
use rnde_m.Experience.Evidence.{ExperienceEvidence, make_evidence, build_evidence}

module _ (F : Floats) (digest : Text → Text) (t : RecentCausalTransition (F.Float)) where
  open F use {Float}

  abbrev pub evidence_of : ExperienceEvidence Float
  evidence_of = record {
    evidence_id =
        opaque_id digest (codes "evidence")
          (t.transition_id ∷ (effect_of F digest t).effect_id ∷ []);
    source_transition_id = t.transition_id;
    context_window = t.before_sensory_window;
    action_frame = t.action_frame;
    observed_effect = effect_of F digest t;
    action_tick = t.action_tick;
    observation_tick = t.observation_tick;
  }

  evidence-made : IsObserved t → make_evidence evidence_of ≡ ok evidence_of
  unfolding make_evidence is_space
  evidence-made h =
      let last = last_frame-Shares t.before_sensory_window h.before_window in
      ground (
        arith,
        opaque_id-blank digest 101 (codes "vidence")
            (t.transition_id ∷ (effect_of F digest t).effect_id ∷ []) refl,
        h.named,
        (validate_external_sensory_window_iff t.before_sensory_window).1 h.before_external,
        (validate_action_frame_iff t.action_frame).1 h.action_valid,
        eq_text_refl t.transition_id,
        (eq_modality_iff (modality t.before_sensory_window)
              (last_frame t.before_sensory_window).modality).1
            (sym last.same_modality),
        (eq_topology_iff (topology t.before_sensory_window)
              (last_frame t.before_sensory_window).topology).1
            (sym last.same_topology),
      )

  -- Of a well-formed recent transition whose two endpoint frames hold activations, building the
  -- evidence does not raise, and the evidence is the transition's context, action and effect.
  pub build_evidence_total :
      IsObserved t
      → IsActivation F (last_frame t.before_sensory_window)
      → IsActivation F (last_frame t.after_sensory_window)
      → build_evidence F digest t ≡ ok evidence_of
  unfolding build_evidence
  build_evidence_total h b a = rw ((extract_total F digest t h b a).0) (evidence-made h)
