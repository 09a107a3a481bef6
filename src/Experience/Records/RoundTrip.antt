-- ===== src/Experience/Records/RoundTrip.antt =====
-- A native record of clc/experience/expsm_representation.py is read back as it was written.
use rnde_m.Prelude.{
  ◌≡◌, refl, subst, Bool, true, false, Option, none, some, arith, String, ok, Result-cases, inl,
  inr, Text, codes, eq_text, is_empty, strip, strip-strip,
}
use rnde_m.Prelude.Floats.{Floats}
use rnde_m.Experience.Json.{get, Fields, end, Json, text, null, int, non_negative_int, mapping}
use rnde_m.Experience.Serialized.{
  SerializedNfpContextV1, SerializedNfpActionV1, SerializedObservedEffectV1,
}
use rnde_m.Experience.Serialized.Stable.{
  IsContext, IsActionPattern, IsEffectPattern, context_from_json-read, action_from_json-read,
  effect_from_json-read,
}
use rnde_m.Experience.Records.{
  optional_field, OperationalMetadataV1, CreationMetadataV1, NfpRecordV1, make_record,
  operational_from_fields, optional_string, numeric_record_id, record_json, record_from_json,
  natural,
}
use rnde_m.Experience.Records.Metadata.{
  IsNamed, IsOptional, IsCreation, non_empty_string-read, optional_string-IsOptional,
  creation_from_json-read,
}
use rnde_m.Experience.Records.Operational.{IsOperational, make_operational-read}

-- The JSON value of an optional field.
abbrev optional_json : {V : Type 0} → Option Text → Json V
optional_json none = null
optional_json (some t) = text t

module _ (V : Type 0) where
  optional_string-read :
      (kind message : String) (o : Option Text)
      → IsOptional V o
      → optional_string {V = V} kind message (optional_json o) ≡ ok o
  unfolding optional_string
  optional_string-read kind message none h = refl
  optional_string-read kind message (some t) h = rw (non_empty_string-read V kind message t h) refl

  abbrev world_fields : Option Text → Option Text → Fields V
  world_fields created updated =
      optional_field (codes "created_at_world") created
        (optional_field (codes "updated_at_world") updated end)

  created_field :
      (created updated : Option Text)
      → get (codes "created_at_world") (world_fields created updated) ≡ optional_json created
  unfolding eq_text
  created_field none none = refl
  created_field none (some u) = refl
  created_field (some t) none = refl
  created_field (some t) (some u) = refl

  updated_field :
      (created updated : Option Text)
      → get (codes "updated_at_world") (world_fields created updated) ≡ optional_json updated
  unfolding eq_text
  updated_field none none = refl
  updated_field none (some u) = refl
  updated_field (some t) none = refl
  updated_field (some t) (some u) = refl

module _ (F : Floats) where
  open F use {Float}

  module _ (is_numeric : Text → Bool) where
    -- What holds of a record that its constructor returned, made of patterns and metadata that theirs
    -- returned.
    pub record IsRecord (r : NfpRecordV1 Float) : Type 0 where
      pub named : IsNamed r.record_id
      pub numbered : is_numeric r.record_id ≡ true
      pub same_modality : eq_text r.context.modality r.effect.modality ≡ true
      pub same_topology : eq_text r.context.topology r.effect.topology ≡ true
      pub context_ok : IsContext F r.context
      pub action_ok : IsActionPattern F r.action
      pub effect_ok : IsEffectPattern F r.effect
      pub operational_ok : IsOperational F r.operational
      pub creation_ok : IsCreation Float r.creation_metadata
      pub created_ok : IsOptional Float r.created_at_world
      pub updated_ok : IsOptional Float r.updated_at_world

    numeric-IsNamed :
        (id t : Text) → numeric_record_id is_numeric id ≡ ok t → IsNamed t × (is_numeric t ≡ true)
    unfolding numeric_record_id
    numeric-IsNamed id t h =
        let same : strip id ≡ t = ground arith in
        (
          record {
            stripped = subst (λ x. strip x ≡ x) same (strip-strip id);
            not_empty = subst (λ x. is_empty x ≡ false) same (ground arith);
          },
          subst (λ x. is_numeric x ≡ true) same (ground arith),
        )

    pub make_record-IsRecord :
        (id : Text) (context : SerializedNfpContextV1 Float) (action : SerializedNfpActionV1 Float)
        (effect : SerializedObservedEffectV1 Float) (operational : OperationalMetadataV1 Float)
        (creation : CreationMetadataV1) (status created updated : Json Float)
        (r : NfpRecordV1 Float)
        → IsContext F context
        → IsActionPattern F action
        → IsEffectPattern F effect
        → IsOperational F operational
        → IsCreation Float creation
        → make_record F is_numeric id context action effect operational creation status created
            updated
          ≡ ok r
        → IsRecord r
    unfolding make_record
    make_record-IsRecord id context action effect operational creation status created updated r c a
          e o n h =
        elim (Result-cases (numeric_record_id is_numeric id)) [
          | inl (x, bad) ↦ absurd (ground arith)
          | inr (i, numbered) ↦
              elim (Result-cases
                (non_negative_int "status must be an integer" "status must be >= 0" status)) [
                  | inl (x, bad) ↦ absurd (ground arith)
                  | inr (s, counted) ↦
                      elim (Result-cases (
                        optional_string "created_at_world must be a string"
                          "created_at_world must be non-empty" created)) [
                            | inl (x, bad) ↦ absurd (ground arith)
                            | inr (t, created_at) ↦
                                elim (Result-cases (
                                  optional_string "updated_at_world must be a string"
                                    "updated_at_world must be non-empty" updated)) [
                                      | inl (x, bad) ↦ absurd (ground arith)
                                      | inr (u, updated_at) ↦
                                          subst IsRecord
                                            (let same : record {
                                              record_id = i;
                                              context = context;
                                              action = action;
                                              effect = effect;
                                              operational = operational;
                                              creation_metadata = creation;
                                              status = s;
                                              created_at_world = t;
                                              updated_at_world = u;
                                            }
                                                  ≡ r =
                                                ground arith in
                                              same)
                                            (record {
                                              named = (numeric-IsNamed id i numbered).0;
                                              numbered = (numeric-IsNamed id i numbered).1;
                                              same_modality = ground arith;
                                              same_topology = ground arith;
                                              context_ok = c;
                                              action_ok = a;
                                              effect_ok = e;
                                              operational_ok = o;
                                              creation_ok = n;
                                              created_ok =
                                                  optional_string-IsOptional Float
                                                    "created_at_world must be a string"
                                                    "created_at_world must be non-empty" created t
                                                    created_at;
                                              updated_ok =
                                                  optional_string-IsOptional Float
                                                    "updated_at_world must be a string"
                                                    "updated_at_world must be non-empty" updated u
                                                    updated_at;
                                            })
                                    ]
                          ]
                ]
        ]

    make_record-read :
        (r : NfpRecordV1 Float)
        → IsRecord r
        → make_record F is_numeric r.record_id r.context r.action r.effect r.operational
            r.creation_metadata
            (natural r.status)
            (optional_json r.created_at_world)
            (optional_json r.updated_at_world)
          ≡ ok r
    unfolding make_record numeric_record_id non_negative_int int
    make_record-read r h = ground (
      arith,
      h.named.stripped,
      h.named.not_empty,
      optional_string-read Float "created_at_world must be a string"
          "created_at_world must be non-empty" r.created_at_world h.created_ok,
      optional_string-read Float "updated_at_world must be a string"
          "updated_at_world must be non-empty" r.updated_at_world h.updated_ok,
    )

    pub record_json-read :
        (r : NfpRecordV1 Float)
        → IsRecord r
        → record_from_json F is_numeric r.record_id (record_json F r) ≡ ok r
    unfolding record_from_json record_json mapping eq_text operational_from_fields
    record_json-read r h = ground (
      arith,
      context_from_json-read F r.context h.context_ok,
      action_from_json-read F r.action h.action_ok,
      effect_from_json-read F r.effect h.effect_ok,
      make_operational-read F r.operational h.operational_ok,
      creation_from_json-read Float r.creation_metadata h.creation_ok,
      created_field Float r.created_at_world r.updated_at_world,
      updated_field Float r.created_at_world r.updated_at_world,
      make_record-read r h,
    )
