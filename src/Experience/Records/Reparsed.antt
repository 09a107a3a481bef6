-- ===== src/Experience/Records/Reparsed.antt =====
-- The record adapter of clc/experience/expsm_representation.py on what a record writes of itself.
use rnde_m.Prelude.{Bool, ◌≡◌, refl, ◌∙◌, true, List, arith, ok, Text, codes, eq_text}
use rnde_m.Prelude.Floats.{Floats}
use rnde_m.Experience.Json.{Json, Fields, object, get}
use rnde_m.Experience.Serialized.{
  SerializedNfpContextV1, SerializedNfpActionV1, SerializedObservedEffectV1, make_context,
  make_action, make_observed_effect,
}
use rnde_m.Experience.Serialized.Stable.{
  make_context-IsContext, make_action-IsActionPattern, make_effect-IsEffectPattern,
}
use rnde_m.Experience.Records.{
  OperationalMetadataV1, CreationMetadataV1, NfpRecordV1, make_operational, make_creation,
  make_record, record_fields, is_native_kind, is_native_version, record_json, record_from_json,
  numeric_record_id,
}
use rnde_m.Experience.Records.Operational.{make_operational-IsOperational}
use rnde_m.Experience.Records.Metadata.{make_creation-IsCreation}
use rnde_m.Experience.Records.RoundTrip.{IsRecord, make_record-IsRecord, record_json-read}
use rnde_m.Experience.Records.Adapter.{has_key, nfp_native, parse, parse_fields, parse_native}

module _ (F : Floats) (is_numeric : Text → Bool) where
  open F use {Float}

  parse_fields-native :
      (id : Text) (fields : Fields Float) (r : NfpRecordV1 Float)
      → has_key (codes "record_kind") fields ≡ true
      → has_key (codes "representation_version") fields ≡ true
      → is_native_kind F (get (codes "record_kind") fields) ≡ true
      → is_native_version F (get (codes "representation_version") fields) ≡ true
      → record_from_json F is_numeric id (object fields) ≡ ok r
      → parse_fields F is_numeric id fields ≡ ok (nfp_native r)
  unfolding parse_fields parse_native
  parse_fields-native id fields r h k l m e = ground (arith, e)

  id_read :
      (r : NfpRecordV1 Float)
      → IsRecord F is_numeric r
      → numeric_record_id is_numeric r.record_id ≡ ok r.record_id
  unfolding numeric_record_id
  id_read r h = ground (arith, h.named.stripped, h.named.not_empty, h.numbered)

  parse-object :
      (id i : Text) (fields : Fields Float)
      → numeric_record_id is_numeric id ≡ ok i
      → parse F is_numeric id (object fields) ≡ parse_fields F is_numeric i fields
  unfolding parse
  parse-object id i fields h = ground (arith, h)

  parse-IsRecord :
      (r : NfpRecordV1 Float)
      → IsRecord F is_numeric r
      → parse F is_numeric r.record_id (record_json F r) ≡ ok (nfp_native r)
  unfolding record_json record_fields eq_text
  parse-IsRecord r h =
      parse-object r.record_id r.record_id (record_fields F r) (id_read r h)
      ∙ (parse_fields-native r.record_id (record_fields F r) r refl refl refl refl
          (record_json-read F is_numeric r h))

  -- A record that the constructors accepted, each of its patterns, its metadata and the record itself,
  -- is written to JSON so that the adapter reads it under its id as a native record: the same record,
  -- with every value and optional field as it was.
  pub parse-record_json :
      (context_modality action_modality effect_modality : Json Float)
      (context_shape action_shape effect_shape action_values effect_values : List (Json Float))
      (frames : List (List (Json Float)))
      (hits misses confidence repeatability count proposal tick profile : Json Float) (id : Text)
      (status created updated : Json Float) (context : SerializedNfpContextV1 Float)
      (action : SerializedNfpActionV1 Float) (effect : SerializedObservedEffectV1 Float)
      (operational : OperationalMetadataV1 Float) (creation : CreationMetadataV1)
      (r : NfpRecordV1 Float)
      → make_context F context_modality context_shape frames ≡ ok context
      → make_action F action_modality action_shape action_values ≡ ok action
      → make_observed_effect F effect_modality effect_shape effect_values ≡ ok effect
      → make_operational F hits misses confidence repeatability ≡ ok operational
      → make_creation count proposal tick profile ≡ ok creation
      → make_record F is_numeric id context action effect operational creation status created
          updated
        ≡ ok r
      → parse F is_numeric r.record_id (record_json F r) ≡ ok (nfp_native r)
  parse-record_json cm am em cs as' es av ev frames hits misses confidence repeatability count
        proposal tick profile id status created updated context action effect operational creation r
        c a e o n h =
      parse-IsRecord r (
        make_record-IsRecord F is_numeric id context action effect operational creation status
          created updated r (make_context-IsContext F cm cs frames context c)
          (make_action-IsActionPattern F am as' av action a)
          (make_effect-IsEffectPattern F em es ev effect e)
          (make_operational-IsOperational F hits misses confidence repeatability operational o)
          (make_creation-IsCreation Float count proposal tick profile creation n) h)
