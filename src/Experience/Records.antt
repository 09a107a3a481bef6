-- ===== src/Experience/Records.antt =====
-- clc/experience/expsm_representation.py: the native record with its metadata, and its JSON form. The
-- test that a record id is numeric (`isdigit` and `int`, which know Unicode) is the parameter
-- `is_numeric`.
pub mod Adapter
pub mod Metadata
pub mod Operational
pub mod RoundTrip
pub mod Reparsed
use rnde_m.Prelude.{
  ℕ, Bool, true, false, not, ◌||◌, ◌&&◌, Option, none, some, List, [], ◌∷◌, ◌==◌, if◌then◌else◌, ℤ,
  pos, negsuc, String, Result, ok, raised, Error, value_error, raise_if, ◌>>=◌, ◌>>◌, Text, codes,
  eq_text, is_empty, strip,
}
use rnde_m.Prelude.Floats.{Floats}
use rnde_m.Experience.Json.{
  Json, null, boolean, integer, number, text, list, object, Fields, field, end, get, mapping,
  non_negative_int, positive_int, non_empty_string, is_null, unit_float,
}
use rnde_m.Experience.Serialized.{
  SerializedNfpContextV1, SerializedNfpActionV1, SerializedObservedEffectV1,
}
use rnde_m.Experience.Serialized.Written.{
  context_json, action_json, effect_json, context_from_json, action_from_json, effect_from_json,
}

abbrev pub nfp_native_kind : Text
nfp_native_kind = codes "nfp_native"

abbrev pub legacy_crud_defaults_profile : Text
legacy_crud_defaults_profile = codes "legacy_crud_defaults_v1"

pub record OperationalMetadataV1 (V : Type 0) : Type 0 where
  pub hits : ℕ
  pub misses : ℕ
  pub confidence : V
  pub repeatability : V

pub record CreationMetadataV1 : Type 0 where
  pub source_support_count : ℕ
  pub source_proposal_id : Text
  pub created_active_tick : ℕ
  pub initialization_profile : Text

pub record NfpRecordV1 (V : Type 0) : Type 0 where
  pub record_id : Text
  pub context : SerializedNfpContextV1 V
  pub action : SerializedNfpActionV1 V
  pub effect : SerializedObservedEffectV1 V
  pub operational : OperationalMetadataV1 V
  pub creation_metadata : CreationMetadataV1
  pub status : ℕ
  pub created_at_world : Option Text
  pub updated_at_world : Option Text

module _ {V : Type 0} where
  -- `CreationMetadata.__post_init__` and its JSON form
  unfoldable pub make_creation : Json V → Json V → Json V → Json V → Result CreationMetadataV1
  unfolding non_negative_int positive_int non_empty_string
  make_creation count proposal tick profile = do
    n ←
        positive_int "source_support_count must be an integer" "source_support_count must be >= 0"
          "source_support_count must be > 0" count
    id ←
        non_empty_string "source_proposal_id must be a string"
          "source_proposal_id must be non-empty" proposal
    t ←
        non_negative_int "created_active_tick must be an integer" "created_active_tick must be >= 0"
          tick
    name ←
        non_empty_string "initialization_profile must be a string"
          "initialization_profile must be non-empty" profile
    raise_if (not (eq_text name legacy_crud_defaults_profile)) "unsupported initialization_profile"
    ok (record {
      source_support_count = n;
      source_proposal_id = id;
      created_active_tick = t;
      initialization_profile = name;
    })

  abbrev pub natural : ℕ → Json V
  natural n = integer (pos n)

  unfoldable pub creation_json : CreationMetadataV1 → Json V
  creation_json c = object (
      field (codes "source_support_count") (natural c.source_support_count) (
        field (codes "source_proposal_id") (text c.source_proposal_id) (
          field (codes "created_active_tick") (natural c.created_active_tick)
            (field (codes "initialization_profile") (text c.initialization_profile) end))))

  unfoldable pub creation_from_json : Json V → Result CreationMetadataV1
  unfolding mapping make_creation
  creation_from_json j = do
    fields ← mapping "creation_metadata must be a mapping" j
    make_creation (get (codes "source_support_count") fields)
        (get (codes "source_proposal_id") fields) (get (codes "created_active_tick") fields)
        (get (codes "initialization_profile") fields)

  -- `value is not None`, and then a non-empty string
  unfoldable pub optional_string : String → String → Json V → Result (Option Text)
  unfolding non_empty_string
  optional_string kind message j =
      if is_null j then ok none else (non_empty_string kind message j >>= λ t. ok (some t))

  -- The JSON form of an optional field: it is left out if it is None.
  abbrev pub optional_field : Text → Option Text → Fields V → Fields V
  optional_field key none rest = rest
  optional_field key (some t) rest = field key (text t) rest

-- `_numeric_record_id` of a text
unfoldable pub numeric_record_id : (Text → Bool) → Text → Result Text
numeric_record_id is_numeric id = do
  raise_if (is_empty (strip id)) "record_id must be non-empty"
  raise_if (not (is_numeric (strip id))) "record_id must be a non-negative numeric string"
  ok (strip id)

module _ (F : Floats) where
  open F use {Float, one_f, eq_f}

  -- `ExpSMOperationalMetadataV1.__post_init__` and its JSON form
  unfoldable pub make_operational :
      Json Float → Json Float → Json Float → Json Float → Result (OperationalMetadataV1 Float)
  unfolding non_negative_int unit_float
  make_operational hits misses confidence repeatability = do
    h ← non_negative_int "hits must be an integer" "hits must be >= 0" hits
    m ← non_negative_int "misses must be an integer" "misses must be >= 0" misses
    c ←
        unit_float F "confidence must be numeric" "confidence must be finite"
          "confidence must be in [0.0, 1.0]" confidence
    r ←
        unit_float F "repeatability must be numeric" "repeatability must be finite"
          "repeatability must be in [0.0, 1.0]" repeatability
    ok (record { hits = h; misses = m; confidence = c; repeatability = r })

  abbrev pub operational_fields : OperationalMetadataV1 Float → Fields Float → Fields Float
  operational_fields o rest = field (codes "hits") (natural o.hits) (
      field (codes "misses") (natural o.misses) (
        field (codes "confidence") (number o.confidence)
          (field (codes "repeatability") (number o.repeatability) rest)))

  unfoldable pub operational_from_fields : Fields Float → Result (OperationalMetadataV1 Float)
  unfolding make_operational
  operational_from_fields fields =
      make_operational (get (codes "hits") fields) (get (codes "misses") fields)
        (get (codes "confidence") fields) (get (codes "repeatability") fields)

  -- `!= NFP_NATIVE_KIND` and `!= NFP_NATIVE_VERSION` fail: Python holds 1, 1.0 and True equal.
  abbrev pub is_native_kind : Json Float → Bool
  is_native_kind (text t) = eq_text t nfp_native_kind
  is_native_kind null = false
  is_native_kind (boolean b) = false
  is_native_kind (integer n) = false
  is_native_kind (number v) = false
  is_native_kind (list js) = false
  is_native_kind (object fields) = false

  abbrev pub is_native_version : Json Float → Bool
  is_native_version (integer (pos n)) = n == 1
  is_native_version (integer (negsuc n)) = false
  is_native_version (number v) = eq_f v one_f
  is_native_version (boolean b) = b
  is_native_version null = false
  is_native_version (text t) = false
  is_native_version (list js) = false
  is_native_version (object fields) = false

  -- `to_json_data`
  unfoldable pub record_fields : NfpRecordV1 Float → Fields Float
  unfolding context_json action_json effect_json creation_json
  record_fields r = field (codes "record_kind") (text nfp_native_kind) (
      field (codes "representation_version") (natural 1) (
        field (codes "context_pattern") (context_json F r.context) (
          field (codes "action_pattern") (action_json F r.action) (
            field (codes "effect_pattern") (effect_json F r.effect) (
              operational_fields r.operational (
                field (codes "status") (natural r.status) (
                  field (codes "creation_metadata") (creation_json r.creation_metadata) (
                    optional_field (codes "created_at_world") r.created_at_world
                      (optional_field (codes "updated_at_world") r.updated_at_world end)))))))))

  unfoldable pub record_json : NfpRecordV1 Float → Json Float
  unfolding record_fields
  record_json r = object (record_fields r)

  module _ (is_numeric : Text → Bool) where
    -- `NFPExpSMRecordV1.__post_init__`; the last three arguments are yet to be read
    unfoldable pub make_record :
        Text
        → SerializedNfpContextV1 Float
        → SerializedNfpActionV1 Float
        → SerializedObservedEffectV1 Float
        → OperationalMetadataV1 Float
        → CreationMetadataV1
        → Json Float
        → Json Float
        → Json Float
        → Result (NfpRecordV1 Float)
    unfolding numeric_record_id non_negative_int optional_string
    make_record id context action effect operational creation status created updated = do
      record_id ← numeric_record_id is_numeric id
      raise_if
          (not (eq_text context.modality effect.modality)
            || not (eq_text context.topology effect.topology))
          "context and effect must share modality and topology"
      n ← non_negative_int "status must be an integer" "status must be >= 0" status
      created_at ←
          optional_string "created_at_world must be a string" "created_at_world must be non-empty"
            created
      updated_at ←
          optional_string "updated_at_world must be a string" "updated_at_world must be non-empty"
            updated
      ok (record {
        record_id = record_id;
        context = context;
        action = action;
        effect = effect;
        operational = operational;
        creation_metadata = creation;
        status = n;
        created_at_world = created_at;
        updated_at_world = updated_at;
      })

    -- `from_json_data`
    unfoldable pub record_from_json : Text → Json Float → Result (NfpRecordV1 Float)
    unfolding mapping context_from_json action_from_json effect_from_json operational_from_fields
        creation_from_json make_record
    record_from_json id j = do
      fields ← mapping "NFP-native record must be a mapping" j
      raise_if (not (is_native_kind (get (codes "record_kind") fields)))
          "record_kind must be nfp_native"
      raise_if (not (is_native_version (get (codes "representation_version") fields)))
          "representation_version must be 1"
      context ← context_from_json F (get (codes "context_pattern") fields)
      action ← action_from_json F (get (codes "action_pattern") fields)
      effect ← effect_from_json F (get (codes "effect_pattern") fields)
      operational ← operational_from_fields fields
      creation ← creation_from_json (get (codes "creation_metadata") fields)
      make_record id context action effect operational creation (get (codes "status") fields)
          (get (codes "created_at_world") fields) (get (codes "updated_at_world") fields)
