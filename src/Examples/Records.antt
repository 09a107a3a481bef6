-- ===== src/Examples/Records.antt =====
-- Examples for the native records of clc/experience/expsm_representation.py and their retrieval.
use rnde_m.Prelude.{
  ◌≡◌, refl, none, some, List, [], ◌∷◌, ok, pos, ℤ, Text, codes, Bool, all, leb, ◌&&◌, eq_text,
  strip, if◌then◌else◌, is_empty, raised, overflow_error,
}
use rnde_m.Patterns.Model.{product}
use rnde_m.Experience.Json.{
  Json, nil, sequence, Fields, field, end, list, object, null, text, integer, number, string, int,
  ints, stable_topology, non_negative_int, positive_int, non_empty_string, number_of, unit_float,
  activation, effect_delta,
}
use rnde_m.Experience.Serialized.{
  SerializedNfpContextV1, SerializedNfpActionV1, SerializedObservedEffectV1, modality_of,
  parse_modality, stable_modality, activations, effect_deltas, all_activations, make_context,
  make_action, make_observed_effect,
}
use rnde_m.Experience.Records.{
  OperationalMetadataV1, CreationMetadataV1, NfpRecordV1, make_operational, operational_from_fields,
  make_creation, make_record, optional_string, numeric_record_id, record_json,
}
use rnde_m.Experience.Records.Adapter.{
  ParsedRecord, nfp_native, legacy, parse, parse_fields, parse_legacy,
}
use rnde_m.Experience.Records.Reparsed.{parse-record_json}
use rnde_m.Expsm.Retrieval.{retrieve_parsed, no_comparable_records, ok_found}
use rnde_m.Expsm.Retrieval.Candidates.{matching, numbered, retrieve_parsed-matching}
use rnde_m.Examples.Sensors.{two_frames}
use rnde_m.Examples.Thousandths.{thousandths}

abbrev digits_only : Text → Bool
digits_only t = all (λ c. leb 48 c && leb c 57) t

abbrev cell_values : List (Json ℤ)
cell_values = number (pos 300) ∷ integer (pos 0) ∷ []

abbrev pair : List (Json ℤ)
pair = integer (pos 1) ∷ integer (pos 2) ∷ []

abbrev seen : SerializedNfpContextV1 ℤ
seen = record {
  modality = codes "visual";
  topology = 1 ∷ 2 ∷ [];
  frames = (pos 300 ∷ pos 0 ∷ []) ∷ [];
}

abbrev done : SerializedNfpActionV1 ℤ
done = record { modality = codes "action"; topology = 1 ∷ 2 ∷ []; values = pos 300 ∷ pos 0 ∷ [] }

abbrev changed : SerializedObservedEffectV1 ℤ
changed = record {
  modality = codes "visual";
  topology = 1 ∷ 2 ∷ [];
  delta_values = pos 300 ∷ pos 0 ∷ [];
}

abbrev trusted : OperationalMetadataV1 ℤ
trusted = record { hits = 2; misses = 1; confidence = pos 500; repeatability = pos 1000 }

abbrev origin : CreationMetadataV1
origin = record {
  source_support_count = 3;
  source_proposal_id = codes "proposal";
  created_active_tick = 7;
  initialization_profile = codes "legacy_crud_defaults_v1";
}

abbrev kept : NfpRecordV1 ℤ
kept = record {
  record_id = codes "12";
  context = seen;
  action = done;
  effect = changed;
  operational = trusted;
  creation_metadata = origin;
  status = 2;
  created_at_world = some (codes "w1");
  updated_at_world = none;
}

seen_made : make_context thousandths (text (codes "visual")) pair (cell_values ∷ []) ≡ ok seen
unfolding make_context stable_modality parse_modality modality_of string stable_topology ints int
    all_activations activations activation unit_float number_of eq_text product
seen_made = refl

done_made : make_action thousandths (text (codes "action")) pair cell_values ≡ ok done
unfolding make_action stable_modality parse_modality modality_of string stable_topology ints int
    activations activation unit_float number_of eq_text product
done_made = refl

changed_made :
    make_observed_effect thousandths (text (codes "visual")) pair cell_values ≡ ok changed
unfolding make_observed_effect stable_modality parse_modality modality_of string stable_topology
    ints int effect_deltas effect_delta number_of eq_text product
changed_made = refl

trusted_made :
    make_operational thousandths
      (integer (pos 2))
      (integer (pos 1))
      (number (pos 500))
      (number (pos 1000))
    ≡ ok trusted
unfolding make_operational non_negative_int int unit_float number_of
trusted_made = refl

origin_made :
    make_creation {V = ℤ}
      (integer (pos 3))
      (text (codes " proposal "))
      (integer (pos 7))
      (text (codes "legacy_crud_defaults_v1"))
    ≡ ok origin
unfolding make_creation positive_int non_negative_int int non_empty_string string eq_text strip
origin_made = refl

kept_made :
    make_record thousandths digits_only
      (codes "12")
      seen
      done
      changed
      trusted
      origin
      (integer (pos 2))
      (text (codes "w1"))
      null
    ≡ ok kept
unfolding make_record numeric_record_id non_negative_int int optional_string non_empty_string string
    eq_text strip
kept_made = refl

-- A legacy record whose confidence is an integer that is no float: `parse` raises, and does not
-- report a malformed record.
abbrev immense : Fields ℤ
immense = field (codes "if") (list nil) (
    field (codes "then") (list nil) (
      field (codes "result") (list nil) (
        field (codes "recommendation") (list nil) (
          field (codes "hits") (integer (pos 1)) (
            field (codes "misses") (integer (pos 0))
              (field (codes "confidence") (integer (pos 2000000)) end))))))

immense_raises :
    parse thousandths digits_only (codes "12") (object immense)
    ≡ raised (overflow_error "int too large to convert to float")
unfolding parse parse_fields parse_legacy operational_from_fields make_operational non_negative_int
    int unit_float number_of sequence numeric_record_id eq_text strip
immense_raises = refl

parse-record_json_example :
    parse thousandths digits_only (codes "12") (record_json thousandths kept) ≡ ok (nfp_native kept)
parse-record_json_example =
    parse-record_json thousandths digits_only (text (codes "visual")) (text (codes "action"))
      (text (codes "visual")) pair pair pair cell_values cell_values (cell_values ∷ [])
      (integer (pos 2)) (integer (pos 1)) (number (pos 500)) (number (pos 1000)) (integer (pos 3))
      (text (codes " proposal ")) (integer (pos 7)) (text (codes "legacy_crud_defaults_v1"))
      (codes "12") (integer (pos 2)) (text (codes "w1")) null seen done changed trusted origin kept
      seen_made done_made changed_made trusted_made origin_made kept_made

abbrev store : List (ParsedRecord ℤ)
store = legacy (codes "3") [] [] [] [] trusted ∷ nfp_native kept ∷ []

retrieve_parsed-matching_example :
    let r = retrieve_parsed thousandths (two_frames 4 5) (pos 500) store in
    let found = numbered thousandths 1 (matching thousandths (two_frames 4 5) (pos 500) store) in
    (r.candidates ≡ found)
    × (r.status ≡ (if is_empty found then no_comparable_records else ok_found))
retrieve_parsed-matching_example =
    retrieve_parsed-matching thousandths (two_frames 4 5) (pos 500) store refl refl
