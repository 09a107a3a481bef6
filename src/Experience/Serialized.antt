-- ===== src/Experience/Serialized.antt =====
-- clc/experience/expsm_representation.py: the persistent patterns of a native record, their
-- constructors and what they are made of; and clc/expsm/nfp_feedback_target.py.
pub mod Written
pub mod Reread
pub mod Stable
use rnde_m.Experience.Json.{
  Json, text, number, list, object, field, end, items_of, get, mapping, sequence, string,
  stable_topology, integers_json, topology_json, parse_topology, activation, effect_delta,
}
use rnde_m.Prelude.{
  String, ℕ, not, ◌||◌, Option, List, [], ◌∷◌, map, any, length, ◌==◌, if◌then◌else◌, ℤ, pos,
  Checked, Result, ok, raised, value_error, ◌>>=◌, ◌>>◌, raise_if, Text, codes, eq_text, is_empty,
}
use rnde_m.Prelude.Floats.{Floats}
use rnde_m.Patterns.Model.{
  PatternModality, visual, audio, internal, pain_damage, reward_success, action, NfpFrame,
  is_positive, magnitude, product,
}
use rnde_m.Patterns.Window.{NfpWindow, frames, modality, topology}
use rnde_m.Experience.Effects.{ObservedEffect}

-- `modality.value`
abbrev pub modality_value : PatternModality → Text
modality_value visual = codes "visual"
modality_value audio = codes "audio"
modality_value internal = codes "internal"
modality_value pain_damage = codes "pain_damage"
modality_value reward_success = codes "reward_success"
modality_value action = codes "action"

-- `PatternModality(value)`
unfoldable pub modality_of : Text → Result PatternModality
modality_of t =
    if eq_text t (codes "visual")
    then ok visual
    else if eq_text t (codes "audio")
    then ok audio
    else if eq_text t (codes "internal")
    then ok internal
    else if eq_text t (codes "pain_damage")
    then ok pain_damage
    else if eq_text t (codes "reward_success")
    then ok reward_success
    else if eq_text t (codes "action")
    then ok action
    else raised (value_error "modality is unsupported")

-- `_parse_modality` with its two messages, and `_stable_modality`
unfoldable pub parse_modality : {V : Type 0} → String → String → Json V → Result Text
unfolding modality_of string
parse_modality kind unsupported j = string kind j >>= λ t. elim (modality_of t) [
  | ok m ↦ ok (modality_value m)
  | raised e ↦ raised (value_error unsupported)
]

unfoldable pub stable_modality : {V : Type 0} → Json V → Result Text
unfolding parse_modality
stable_modality = parse_modality "modality must be a string" "modality is unsupported"

pub record SerializedNfpContextV1 (V : Type 0) : Type 0 where
  pub modality : Text
  pub topology : List ℕ
  pub frames : List (List V)

pub record SerializedNfpActionV1 (V : Type 0) : Type 0 where
  pub modality : Text
  pub topology : List ℕ
  pub values : List V

pub record SerializedObservedEffectV1 (V : Type 0) : Type 0 where
  pub modality : Text
  pub topology : List ℕ
  pub delta_values : List V

-- `NFPFeedbackTargetCore`
pub record FeedbackTargetCore (V : Type 0) : Type 0 where
  pub record_kind : Text
  pub representation_version : ℕ
  pub context : SerializedNfpContextV1 V
  pub action : SerializedNfpActionV1 V
  pub effect : SerializedObservedEffectV1 V
  pub source_support_count : ℕ
  pub source_proposal_id : Text
  pub created_active_tick : ℕ
  pub initialization_profile : Text
  pub created_at_world : Option Text

abbrev pub numbers_json : {V : Type 0} → List V → List (Json V)
numbers_json [] = []
numbers_json (v ∷ vs) = number v ∷ numbers_json vs

module _ (F : Floats) where
  open F use {Float}

  -- The loops of the constructors over their values.
  unfoldable pub activations : List (Json Float) → Result (List Float)
  unfolding activation
  activations [] = ok []
  activations (j ∷ js) = do v ← activation F j; vs ← activations js; ok (v ∷ vs)

  unfoldable pub effect_deltas : List (Json Float) → Result (List Float)
  unfolding effect_delta
  effect_deltas [] = ok []
  effect_deltas (j ∷ js) = do v ← effect_delta F j; vs ← effect_deltas js; ok (v ∷ vs)

  unfoldable pub all_activations : List (List (Json Float)) → Result (List (List Float))
  unfolding activations
  all_activations [] = ok []
  all_activations (js ∷ rest) = do vs ← activations js; more ← all_activations rest; ok (vs ∷ more)

  -- The `__post_init__` of the three patterns, on values that are yet to be read.
  unfoldable pub make_context :
      Json Float
      → List (Json Float)
      → List (List (Json Float))
      → Result (SerializedNfpContextV1 Float)
  unfolding stable_modality stable_topology all_activations
  make_context m shape values = do
    modality ← stable_modality m
    topology ← stable_topology shape
    frames ← all_activations values
    raise_if (is_empty frames) "context requires at least one frame"
    raise_if (any (λ (vs : List Float). not (length vs == product topology)) frames)
        "context frame length must equal topology size"
    ok (record { modality = modality; topology = topology; frames = frames })

  unfoldable pub make_action :
      Json Float → List (Json Float) → List (Json Float) → Result (SerializedNfpActionV1 Float)
  unfolding stable_modality stable_topology activations
  make_action m shape js = do
    modality ← stable_modality m
    raise_if (not (eq_text modality (codes "action"))) "action modality must be ACTION"
    topology ← stable_topology shape
    values ← activations js
    raise_if (not (length values == product topology))
        "action values length must equal topology size"
    ok (record { modality = modality; topology = topology; values = values })

  unfoldable pub make_observed_effect :
      Json Float → List (Json Float) → List (Json Float) → Result (SerializedObservedEffectV1 Float)
  unfolding stable_modality stable_topology effect_deltas
  make_observed_effect m shape js = do
    modality ← stable_modality m
    topology ← stable_topology shape
    values ← effect_deltas js
    raise_if (not (length values == product topology))
        "effect delta length must equal topology size"
    ok (record { modality = modality; topology = topology; delta_values = values })

  -- `from_window`, `from_frame` and `from_effect`
  unfoldable pub context_from_window : NfpWindow Float → Result (SerializedNfpContextV1 Float)
  context_from_window w =
      make_context (text (modality_value (modality w))) (integers_json (topology w).shape)
        (map (λ f. numbers_json f.values) (frames w))

  unfoldable pub action_from_frame : NfpFrame Float → Result (SerializedNfpActionV1 Float)
  action_from_frame f =
      make_action (text (modality_value f.modality)) (integers_json f.topology.shape)
        (numbers_json f.values)

  unfoldable pub effect_from_effect :
      ObservedEffect Float → Result (SerializedObservedEffectV1 Float)
  effect_from_effect e =
      make_observed_effect (text (modality_value e.modality)) (integers_json e.topology.shape)
        (numbers_json e.delta_values)
