-- ===== src/Experience/Serialized/Written.antt =====
-- `to_json_data` and `from_json_data` of the patterns of clc/experience/expsm_representation.py.
use rnde_m.Experience.Json.{
  Json, text, list, object, field, end, items_of, get, mapping, sequence, integers_json,
  topology_json, parse_topology,
}
use rnde_m.Prelude.{List, [], ◌∷◌, Result, ok, ◌>>=◌, codes}
use rnde_m.Prelude.Floats.{Floats}
use rnde_m.Patterns.Window.{frames, topology}
use rnde_m.Experience.Serialized.{
  SerializedNfpContextV1, SerializedNfpActionV1, SerializedObservedEffectV1, numbers_json,
  parse_modality, make_context, make_action, make_observed_effect,
}

module _ (F : Floats) where
  open F use {Float}

  -- `to_json_data`
  abbrev pub frames_json : List (List Float) → List (Json Float)
  frames_json [] = []
  frames_json (vs ∷ rest) =
      object (field (codes "values") (list (items_of (numbers_json vs))) end) ∷ frames_json rest

  unfoldable pub context_json : SerializedNfpContextV1 Float → Json Float
  context_json c = object (
      field (codes "modality") (text c.modality) (
        field (codes "topology") (topology_json c.topology)
          (field (codes "frames") (list (items_of (frames_json c.frames))) end)))

  unfoldable pub action_json : SerializedNfpActionV1 Float → Json Float
  action_json a = object (
      field (codes "modality") (text a.modality) (
        field (codes "topology") (topology_json a.topology)
          (field (codes "values") (list (items_of (numbers_json a.values))) end)))

  unfoldable pub effect_json : SerializedObservedEffectV1 Float → Json Float
  effect_json e = object (
      field (codes "modality") (text e.modality) (
        field (codes "topology") (topology_json e.topology)
          (field (codes "delta_values") (list (items_of (numbers_json e.delta_values))) end)))

  -- `from_json_data`
  unfoldable pub frame_values : List (Json Float) → Result (List (List (Json Float)))
  unfolding mapping sequence
  frame_values [] = ok []
  frame_values (j ∷ js) = do
    fields ← mapping "context frame must be a mapping" j
    values ← sequence "context frame values must be a sequence" (get (codes "values") fields)
    rest ← frame_values js
    ok (values ∷ rest)

  unfoldable pub context_from_json : Json Float → Result (SerializedNfpContextV1 Float)
  unfolding make_context mapping sequence parse_modality parse_topology frame_values
  context_from_json j = do
    fields ← mapping "context_pattern must be a mapping" j
    frames ← sequence "context_pattern.frames must be a sequence" (get (codes "frames") fields)
    m ←
        parse_modality "context_pattern.modality must be a string"
          "context_pattern.modality is unsupported" (get (codes "modality") fields)
    topology ← parse_topology (get (codes "topology") fields)
    values ← frame_values frames
    make_context F (text m) (integers_json topology) values

  unfoldable pub action_from_json : Json Float → Result (SerializedNfpActionV1 Float)
  unfolding make_action mapping sequence parse_modality parse_topology
  action_from_json j = do
    fields ← mapping "action_pattern must be a mapping" j
    m ←
        parse_modality "action_pattern.modality must be a string"
          "action_pattern.modality is unsupported" (get (codes "modality") fields)
    topology ← parse_topology (get (codes "topology") fields)
    values ← sequence "action_pattern.values must be a sequence" (get (codes "values") fields)
    make_action F (text m) (integers_json topology) values

  unfoldable pub effect_from_json : Json Float → Result (SerializedObservedEffectV1 Float)
  unfolding make_observed_effect mapping sequence parse_modality parse_topology
  effect_from_json j = do
    fields ← mapping "effect_pattern must be a mapping" j
    m ←
        parse_modality "effect_pattern.modality must be a string"
          "effect_pattern.modality is unsupported" (get (codes "modality") fields)
    topology ← parse_topology (get (codes "topology") fields)
    values ←
        sequence "effect_pattern.delta_values must be a sequence"
          (get (codes "delta_values") fields)
    make_observed_effect F (text m) (integers_json topology) values
