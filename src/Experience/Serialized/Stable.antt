-- ===== src/Experience/Serialized/Stable.antt =====
-- The three patterns of clc/experience/expsm_representation.py: what the constructors guarantee, and
-- that what they returned is written and read back unchanged.
use rnde_m.Prelude.{
  ◌≡◌, refl, true, false, not, List, [], ◌∷◌, any, All, subst, length, ◌==◌, arith, ok,
  Result-cases, inl, inr, codes, eq_text, is_empty,
}
use rnde_m.Prelude.Floats.{Floats}
use rnde_m.Patterns.Model.{product}
use rnde_m.Experience.Effects.Laws.{IsUnit}
use rnde_m.Experience.Json.{Json, stable_topology, mapping, sequence}
use rnde_m.Experience.Serialized.{
  SerializedNfpContextV1, SerializedNfpActionV1, SerializedObservedEffectV1, stable_modality,
  activations, effect_deltas, all_activations, numbers_json, make_context, make_action,
  make_observed_effect,
}
use rnde_m.Experience.Serialized.Written.{
  frames_json, frame_values, context_json, action_json, effect_json, context_from_json,
  action_from_json, effect_from_json,
}
use rnde_m.Experience.Serialized.Reread.{
  IsModality, IsShape, IsDelta, ok-injective, to_list-items_of, parse_modality-IsModality,
  parse_modality-read, stable_topology-IsShape, stable_topology-read, parse_topology-read,
  activations-IsUnit, activations-read, effect_deltas-IsDelta, effect_deltas-read,
}

module _ (F : Floats) where
  open F use {Float}

  pub record IsContext (c : SerializedNfpContextV1 Float) : Type 0 where
    pub known : IsModality c.modality
    pub shaped : IsShape c.topology
    pub in_unit : All (λ (vs : List Float). All (IsUnit F) vs) c.frames
    pub has_frames : is_empty c.frames ≡ false
    pub sized : any (λ (vs : List Float). not (length vs == product c.topology)) c.frames ≡ false

  pub record IsActionPattern (a : SerializedNfpActionV1 Float) : Type 0 where
    pub known : IsModality a.modality
    pub is_action : eq_text a.modality (codes "action") ≡ true
    pub shaped : IsShape a.topology
    pub in_unit : All (IsUnit F) a.values
    pub sized : (length a.values == product a.topology) ≡ true

  pub record IsEffectPattern (e : SerializedObservedEffectV1 Float) : Type 0 where
    pub known : IsModality e.modality
    pub shaped : IsShape e.topology
    pub in_range : All (IsDelta F) e.delta_values
    pub sized : (length e.delta_values == product e.topology) ≡ true

  pub make_action-IsActionPattern :
      (m : Json Float) (shape js : List (Json Float)) (a : SerializedNfpActionV1 Float)
      → make_action F m shape js ≡ ok a
      → IsActionPattern a
  unfolding make_action stable_modality
  make_action-IsActionPattern m shape js a h = elim (Result-cases (stable_modality m)) [
    | inl (e, bad) ↦ absurd (ground arith)
    | inr (t, known) ↦ elim (Result-cases (stable_topology shape)) [
      | inl (e, bad) ↦ absurd (ground arith)
      | inr (ds, shaped) ↦ elim (Result-cases (activations F js)) [
        | inl (e, bad) ↦ absurd (ground arith)
        | inr (vs, read) ↦
            subst IsActionPattern
              (let same : record { modality = t; topology = ds; values = vs } ≡ a = ground arith in
                same)
              (record {
                known =
                    parse_modality-IsModality "modality must be a string" "modality is unsupported"
                      m t known;
                is_action = ground arith;
                shaped = stable_topology-IsShape Float shape ds shaped;
                in_unit = activations-IsUnit F js vs read;
                sized = ground arith;
              })
      ]
    ]
  ]

  pub action_from_json-read :
      (a : SerializedNfpActionV1 Float)
      → IsActionPattern a
      → action_from_json F (action_json F a) ≡ ok a
  unfolding action_from_json action_json mapping sequence make_action stable_modality eq_text
  action_from_json-read a h = ground (
    arith,
    parse_modality-read Float "action_pattern.modality must be a string"
        "action_pattern.modality is unsupported" a.modality h.known,
    parse_modality-read Float "modality must be a string" "modality is unsupported" a.modality
        h.known,
    parse_topology-read Float a.topology h.shaped,
    stable_topology-read Float a.topology h.shaped,
    to_list-items_of (numbers_json a.values),
    activations-read F a.values h.in_unit,
  )

  pub make_effect-IsEffectPattern :
      (m : Json Float) (shape js : List (Json Float)) (a : SerializedObservedEffectV1 Float)
      → make_observed_effect F m shape js ≡ ok a
      → IsEffectPattern a
  unfolding make_observed_effect stable_modality
  make_effect-IsEffectPattern m shape js a h = elim (Result-cases (stable_modality m)) [
    | inl (e, bad) ↦ absurd (ground arith)
    | inr (t, known) ↦ elim (Result-cases (stable_topology shape)) [
      | inl (e, bad) ↦ absurd (ground arith)
      | inr (ds, shaped) ↦ elim (Result-cases (effect_deltas F js)) [
        | inl (e, bad) ↦ absurd (ground arith)
        | inr (vs, read) ↦
            subst IsEffectPattern
              (let same : record { modality = t; topology = ds; delta_values = vs } ≡ a =
                  ground arith in
                same)
              (record {
                known =
                    parse_modality-IsModality "modality must be a string" "modality is unsupported"
                      m t known;
                shaped = stable_topology-IsShape Float shape ds shaped;
                in_range = effect_deltas-IsDelta F js vs read;
                sized = ground arith;
              })
      ]
    ]
  ]

  pub effect_from_json-read :
      (a : SerializedObservedEffectV1 Float)
      → IsEffectPattern a
      → effect_from_json F (effect_json F a) ≡ ok a
  unfolding effect_from_json effect_json mapping sequence make_observed_effect stable_modality
      eq_text
  effect_from_json-read a h = ground (
    arith,
    parse_modality-read Float "effect_pattern.modality must be a string"
        "effect_pattern.modality is unsupported" a.modality h.known,
    parse_modality-read Float "modality must be a string" "modality is unsupported" a.modality
        h.known,
    parse_topology-read Float a.topology h.shaped,
    stable_topology-read Float a.topology h.shaped,
    to_list-items_of (numbers_json a.delta_values),
    effect_deltas-read F a.delta_values h.in_range,
  )

  all_activations-IsUnit :
      (js : List (List (Json Float))) (vs : List (List Float))
      → all_activations F js ≡ ok vs
      → All (λ (v : List Float). All (IsUnit F) v) vs
  unfolding all_activations
  all_activations-IsUnit [] vs h =
      subst (All (λ (v : List Float). All (IsUnit F) v)) (ok-injective [] vs h) tt
  all_activations-IsUnit (j ∷ js) vs h = elim (Result-cases (activations F j)) [
    | inl (e, bad) ↦ absurd (ground arith)
    | inr (v, good) ↦ elim (Result-cases (all_activations F js)) [
      | inl (e, bad) ↦ absurd (ground arith)
      | inr (more, rest) ↦
          subst (All (λ (v : List Float). All (IsUnit F) v))
            (let same : v ∷ more ≡ vs = ground arith in same)
            (activations-IsUnit F j v good, all_activations-IsUnit js more rest)
    ]
  ]

  frame_lists : List (List Float) → List (List (Json Float))
  frame_lists [] = []
  frame_lists (vs ∷ rest) = numbers_json vs ∷ frame_lists rest

  frame_values-frames_json :
      (frames : List (List Float)) → frame_values F (frames_json F frames) ≡ ok (frame_lists frames)
  unfolding frame_values mapping sequence eq_text frame_lists
  frame_values-frames_json [] = refl
  frame_values-frames_json (vs ∷ rest) =
      rw (to_list-items_of (numbers_json vs), frame_values-frames_json rest) refl

  all_activations-read :
      (vs : List (List Float))
      → All (λ (v : List Float). All (IsUnit F) v) vs
      → all_activations F (frame_lists vs) ≡ ok vs
  unfolding all_activations frame_lists
  all_activations-read [] h = refl
  all_activations-read (v ∷ vs) h =
      rw (activations-read F v h.0) (rw (all_activations-read vs h.1) refl)

  pub make_context-IsContext :
      (m : Json Float) (shape : List (Json Float)) (js : List (List (Json Float)))
      (c : SerializedNfpContextV1 Float)
      → make_context F m shape js ≡ ok c
      → IsContext c
  unfolding make_context stable_modality
  make_context-IsContext m shape js c h = elim (Result-cases (stable_modality m)) [
    | inl (e, bad) ↦ absurd (ground arith)
    | inr (t, known) ↦ elim (Result-cases (stable_topology shape)) [
      | inl (e, bad) ↦ absurd (ground arith)
      | inr (ds, shaped) ↦ elim (Result-cases (all_activations F js)) [
        | inl (e, bad) ↦ absurd (ground arith)
        | inr (vs, read) ↦
            subst IsContext
              (let same : record { modality = t; topology = ds; frames = vs } ≡ c = ground arith in
                same)
              (record {
                known =
                    parse_modality-IsModality "modality must be a string" "modality is unsupported"
                      m t known;
                shaped = stable_topology-IsShape Float shape ds shaped;
                in_unit = all_activations-IsUnit js vs read;
                has_frames = ground arith;
                sized = ground arith;
              })
      ]
    ]
  ]

  pub context_from_json-read :
      (c : SerializedNfpContextV1 Float)
      → IsContext c
      → context_from_json F (context_json F c) ≡ ok c
  unfolding context_from_json context_json mapping sequence make_context stable_modality eq_text
  context_from_json-read c h = ground (
    arith,
    parse_modality-read Float "context_pattern.modality must be a string"
        "context_pattern.modality is unsupported" c.modality h.known,
    parse_modality-read Float "modality must be a string" "modality is unsupported" c.modality
        h.known,
    parse_topology-read Float c.topology h.shaped,
    stable_topology-read Float c.topology h.shaped,
    to_list-items_of (frames_json F c.frames),
    frame_values-frames_json c.frames,
    all_activations-read c.frames h.in_unit,
  )
