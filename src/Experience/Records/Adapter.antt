-- ===== src/Experience/Records/Adapter.antt =====
-- `ExpSMRecordAdapter` and the request builder of clc/experience/expsm_representation.py. The readers
-- raise the exceptions that `parse` handles, and OverflowError on an integer that is no float.
use rnde_m.Core.Ids.{is_in}
use rnde_m.Prelude.{
  ◌+◌, ℕ, Bool, true, false, not, ◌||◌, Option, none, some, List, [], ◌∷◌, ◌==◌, if◌then◌else◌,
  String, Result, ok, raised, rescue, Error, raise_if, ◌>>=◌, ◌>>◌, Text, codes, eq_text, is_blank,
  strip,
}
use rnde_m.Prelude.Floats.{Floats}
use rnde_m.Experience.Evidence.{ExperienceEvidence}
use rnde_m.Experience.Grouping.{ConsolidationProposal}
use rnde_m.Experience.Json.{
  Json, null, boolean, integer, number, text, list, object, Fields, field, end, get, sequence,
}
use rnde_m.Experience.Serialized.{
  SerializedNfpContextV1, SerializedNfpActionV1, SerializedObservedEffectV1, context_from_window,
  action_from_frame, effect_from_effect,
}
use rnde_m.Experience.Records.{
  OperationalMetadataV1, CreationMetadataV1, NfpRecordV1, numeric_record_id, is_native_kind,
  is_native_version, operational_from_fields, record_from_json, natural, make_creation,
  legacy_crud_defaults_profile, make_record,
}

-- What is wrong with a record: a text of the source, or `str(exc)`.
pub data Fault : Type 0 where
  message : String → Fault
  exception : Error → Fault

pub data ParsedRecord (V : Type 0) : Type 0 where
  legacy :
      (record_id : Text) (condition actions result recommendation : List (Json V))
      (operational : OperationalMetadataV1 V)
      → ParsedRecord V
  nfp_native : NfpRecordV1 V → ParsedRecord V
  malformed : (record_id : Text) (error : Fault) → ParsedRecord V
  unsupported :
      (record_id : Text) (record_kind representation_version : Json V) (reason : String)
      → ParsedRecord V

-- `key in raw`
abbrev pub has_key : {V : Type 0} → Text → Fields V → Bool
has_key key end = false
has_key key (field k v rest) = eq_text k key || has_key key rest

-- `has_kind != has_version`
abbrev pub differ : Bool → Bool → Bool
differ true b = not b
differ false b = b

module _ (F : Floats) (is_numeric : Text → Bool) where
  open F use {Float, one_f, two_f, div_f}

  -- `except (TypeError, ValueError)`
  abbrev pub or_malformed : Text → Result (ParsedRecord Float) → Result (ParsedRecord Float)
  or_malformed id (ok r) = ok r
  or_malformed id (raised e) = rescue (λ x. ok (malformed id (exception x))) e

  -- A record without discriminator.
  unfoldable pub parse_legacy : Text → Fields Float → Result (ParsedRecord Float)
  unfolding operational_from_fields sequence
  parse_legacy id raw = do
    condition ← sequence "legacy.if must be a sequence" (get (codes "if") raw)
    actions ← sequence "legacy.then must be a sequence" (get (codes "then") raw)
    result ← sequence "legacy.result must be a sequence" (get (codes "result") raw)
    recommendation ←
        sequence "legacy.recommendation must be a sequence" (get (codes "recommendation") raw)
    operational ← operational_from_fields F raw
    ok (legacy id condition actions result recommendation operational)

  -- A record with both parts of the discriminator.
  unfoldable pub parse_native : Text → Fields Float → Result (ParsedRecord Float)
  unfolding record_from_json
  parse_native id raw =
      let kind = get (codes "record_kind") raw in
      let version = get (codes "representation_version") raw in
      if not (is_native_kind F kind)
      then ok (unsupported id kind version "unsupported record kind")
      else if not (is_native_version F version)
      then ok (unsupported id kind version "unsupported representation version")
      else or_malformed id
          (record_from_json F is_numeric id (object raw) >>= λ r. ok (nfp_native r))

  unfoldable pub parse_fields : Text → Fields Float → Result (ParsedRecord Float)
  unfolding parse_native parse_legacy
  parse_fields id raw =
      if differ (has_key (codes "record_kind") raw) (has_key (codes "representation_version") raw)
      then ok (malformed id (message "record discriminator is incomplete"))
      else if has_key (codes "record_kind") raw
      then parse_native id raw
      else or_malformed id (parse_legacy id raw)

  abbrev pub parse_raw : Text → Json Float → Result (ParsedRecord Float)
  parse_raw id (object raw) = parse_fields id raw
  parse_raw id null = ok (malformed id (message "record must be a mapping"))
  parse_raw id (boolean b) = ok (malformed id (message "record must be a mapping"))
  parse_raw id (integer n) = ok (malformed id (message "record must be a mapping"))
  parse_raw id (number v) = ok (malformed id (message "record must be a mapping"))
  parse_raw id (text t) = ok (malformed id (message "record must be a mapping"))
  parse_raw id (list js) = ok (malformed id (message "record must be a mapping"))

  -- `parse`, given the id as a text
  unfoldable pub parse : Text → Json Float → Result (ParsedRecord Float)
  unfolding numeric_record_id parse_fields
  parse id raw = elim (numeric_record_id is_numeric id) [
    | raised e ↦ rescue (λ x. ok (malformed id (exception x))) e
    | ok normalized ↦ parse_raw normalized raw
  ]

pub record CreationRequest (V : Type 0) : Type 0 where
  pub request_id : Text
  pub context : SerializedNfpContextV1 V
  pub action : SerializedNfpActionV1 V
  pub effect : SerializedObservedEffectV1 V
  pub requested_operational : OperationalMetadataV1 V
  pub creation_metadata : CreationMetadataV1

unfoldable pub make_creation_request : {V : Type 0} → CreationRequest V → Result (CreationRequest V)
make_creation_request r = do
  raise_if (is_blank r.request_id) "request_id must be non-empty"
  raise_if
      (not (eq_text r.context.modality r.effect.modality)
        || not (eq_text r.context.topology r.effect.topology))
      "context and effect must share modality and topology"
  ok (record r { request_id = strip r.request_id })

-- `len(set(ids))`
unfoldable pub unique_count : List Text → ℕ
unique_count [] = 0
unique_count (id ∷ ids) = let rest = unique_count ids in if is_in ids id then rest else rest + 1

module _ (F : Floats) where
  open F use {Float, one_f, two_f, div_f}

  -- `ExpSMOperationalMetadataV1()`; 0.5 is the half of 1.
  abbrev pub default_operational : OperationalMetadataV1 Float
  default_operational = record {
    hits = 0;
    misses = 0;
    confidence = div_f one_f two_f;
    repeatability = div_f one_f two_f;
  }

  -- `requested_operational or ExpSMOperationalMetadataV1()`
  abbrev pub operational_or_default :
      Option (OperationalMetadataV1 Float) → OperationalMetadataV1 Float
  operational_or_default none = default_operational
  operational_or_default (some o) = o

  -- `ExpSMRecordCreationRequestBuilder.build`
  unfoldable pub build_request :
      ConsolidationProposal
      → ExperienceEvidence Float
      → Text
      → Option (OperationalMetadataV1 Float)
      → Result (CreationRequest Float)
  unfolding unique_count context_from_window action_from_frame effect_from_effect make_creation
      make_creation_request
  build_request proposal evidence request_id requested = do
    raise_if (not (eq_text proposal.representative_evidence_id evidence.evidence_id))
        "proposal representative_evidence_id does not match evidence"
    raise_if (not (proposal.support_count == unique_count proposal.supporting_evidence_ids))
        "proposal support_count must match unique supporting evidence IDs"
    context ← context_from_window F evidence.context_window
    action ← action_from_frame F evidence.action_frame
    effect ← effect_from_effect F evidence.observed_effect
    creation ←
        make_creation {V = Float} (natural proposal.support_count) (text proposal.proposal_id)
          (natural proposal.created_active_tick) (text legacy_crud_defaults_profile)
    make_creation_request (record {
      request_id = request_id;
      context = context;
      action = action;
      effect = effect;
      requested_operational = operational_or_default requested;
      creation_metadata = creation;
    })

  -- `materialize_for_validation`
  unfoldable pub materialize_for_validation :
      (Text → Bool) → CreationRequest Float → Text → Result (NfpRecordV1 Float)
  unfolding make_record
  materialize_for_validation is_numeric r id =
      make_record F is_numeric id r.context r.action r.effect r.requested_operational
        r.creation_metadata (natural 2) null null
