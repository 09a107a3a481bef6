-- ===== src/Experience/Effects.antt =====
-- clc/experience/effects.py. The SHA-256 digest is the parameter `digest`: the first 24 hexadecimal
-- digits for a text.
pub mod Laws
use rnde_m.Prelude.{
  ℕ, ◌+◌, Bool, true, false, not, ◌||◌, ◌&&◌, none, some, List, [], ◌∷◌, ◌++◌, ◌==◌, if◌then◌else◌,
  length, any, ℤ, pos, Checked, Result, ok, ◌>>=◌, ◌>>◌, raise_if, non_negative, Text, codes,
  is_blank,
}
use rnde_m.Prelude.Floats.{Floats}
use rnde_m.Patterns.Model.{
  PatternModality, PatternTopology, NfpFrame, eq_modality, eq_topology, size,
}
use rnde_m.Patterns.Window.{last_frame}
use rnde_m.Patterns.Similarity.{NfpSimilarityResult, incomparable, scored, total_difference}
use rnde_m.Context.Causal.{RecentCausalTransition, validate_external_sensory_window}

pub record ObservedEffect (V : Type 0) : Type 0 where
  pub effect_id : Text
  pub source_transition_id : Text
  pub modality : PatternModality
  pub topology : PatternTopology
  pub delta_values : List V
  pub before_endpoint_ref : Text
  pub after_endpoint_ref : Text
  pub action_tick : ℕ
  pub observation_tick : ℕ

-- `"\x1f".join(parts)`
abbrev pub joined : List Text → Text
joined [] = []
joined (p ∷ []) = p
joined (p ∷ q ∷ ps) = p ++ 31 ∷ joined (q ∷ ps)

-- `_opaque_id`
unfoldable pub opaque_id : (Text → Text) → Text → List Text → Text
opaque_id digest tag parts = tag ++ 58 ∷ digest (joined parts)

module _ (F : Floats) where
  open F use {
    Float, zero_f, one_f, neg_one_f, two_f, tiny_f, neg_tiny_f, lt_f, is_finite, add_f, sub_f,
    div_f, from_int,
  }

  -- `__post_init__`
  unfoldable pub make_effect : ObservedEffect Float → Result (ObservedEffect Float)
  make_effect e = do
    raise_if (is_blank e.effect_id) "effect_id must be non-empty"
    raise_if (is_blank e.source_transition_id) "source_transition_id must be non-empty"
    raise_if (is_blank e.before_endpoint_ref) "before_endpoint_ref must be non-empty"
    raise_if (is_blank e.after_endpoint_ref) "after_endpoint_ref must be non-empty"
    raise_if (not (length e.delta_values == size e.topology))
        "delta length must equal topology size"
    raise_if (any (λ (v : Float). not (is_finite v)) e.delta_values) "delta values must be finite"
    raise_if (any (λ (v : Float). lt_f v neg_one_f || lt_f one_f v) e.delta_values)
        "delta values must be in [-1.0, 1.0]"
    raise_if (not (e.observation_tick == e.action_tick + 1))
        "observation_tick must equal action_tick + 1"
    ok e

  -- `after - before for before, after in zip(before_values, after_values)`
  unfoldable pub deltas : List Float → List Float → List Float
  deltas [] later = []
  deltas (b ∷ bs) [] = []
  deltas (b ∷ bs) (a ∷ later) = sub_f a b ∷ deltas bs later

  module _ (digest : Text → Text) where
    abbrev effect_between :
        RecentCausalTransition Float → NfpFrame Float → NfpFrame Float → ObservedEffect Float
    effect_between t before after = record {
      effect_id =
          opaque_id digest (codes "effect")
            (t.transition_id ∷ before.frame_id ∷ after.frame_id ∷ []);
      source_transition_id = t.transition_id;
      modality = before.modality;
      topology = before.topology;
      delta_values = deltas before.values after.values;
      before_endpoint_ref = opaque_id digest (codes "endpoint") (before.frame_id ∷ []);
      after_endpoint_ref = opaque_id digest (codes "endpoint") (after.frame_id ∷ []);
      action_tick = t.action_tick;
      observation_tick = t.observation_tick;
    }

    -- `ObservedEffectExtractor.extract`
    unfoldable pub extract : RecentCausalTransition Float → Result (ObservedEffect Float)
    unfolding make_effect deltas opaque_id
    extract t = do
      validate_external_sensory_window t.before_sensory_window
      validate_external_sensory_window t.after_sensory_window
      let before = last_frame t.before_sensory_window
      let after = last_frame t.after_sensory_window
      raise_if (not (eq_modality before.modality after.modality))
          "sensory endpoints must share modality"
      raise_if (not (eq_topology before.topology after.topology))
          "sensory endpoints must share topology"
      raise_if (not (length before.values == length after.values))
          "sensory endpoints must have equal activation length"
      make_effect (effect_between t before after)

  -- `ObservedEffectSimilarity.compare`
  abbrev snap_low : Float → Float
  snap_low score = if lt_f score zero_f && lt_f neg_tiny_f score then zero_f else score

  abbrev snap_high : Float → Float
  snap_high score = if lt_f one_f score && lt_f score (add_f one_f tiny_f) then one_f else score

  unfoldable pub compare_effects :
      ObservedEffect Float → ObservedEffect Float → NfpSimilarityResult Float
  compare_effects left right =
      if not (eq_modality left.modality right.modality)
      then incomparable "different_modality"
      else if not (eq_topology left.topology right.topology)
      then incomparable "different_topology"
      else if not (length left.delta_values == length right.delta_values)
      then incomparable "different_delta_length"
      else let distance = total_difference F left.delta_values right.delta_values in
        let share = div_f distance (from_int (length left.delta_values)) in
        scored (snap_high (snap_low (sub_f one_f (div_f share two_f))))
