-- ===== src/Expsm/Retrieval.antt =====
-- clc/expsm/nfp_operational_retrieval.py: the records of the store that resemble the live context. The
-- file is read outside: what `json.loads` returned, or the text of its exception, is an argument.
pub mod Candidates
use rnde_m.Prelude.{
  ℕ, ◌+◌, Bool, true, false, not, ◌||◌, Option, none, some, List, [], ◌∷◌, ◌++◌, ltb, ◌==◌, all,
  length, if◌then◌else◌, String, Result, ok, raised, raise_if, ◌>>=◌, ◌>>◌, Text, codes, eq_text,
  map,
}
use rnde_m.Prelude.Decimal.{decimal}
use rnde_m.Prelude.Floats.{Floats, clamp}
use rnde_m.Patterns.Model.{NfpFrame, external_sensory, eq_origin, size}
use rnde_m.Patterns.Window.{NfpWindow, frames, modality, topology, frame_count}
use rnde_m.Patterns.Similarity.{NfpSimilarityResult, incomparable, scored, total_difference}
use rnde_m.Experience.Json.{
  Json, null, boolean, integer, number, text, list, object, Fields, field, end, get,
}
use rnde_m.Experience.Serialized.{
  SerializedNfpContextV1, SerializedNfpActionV1, SerializedObservedEffectV1, FeedbackTargetCore,
  modality_value,
}
use rnde_m.Experience.Records.{CreationMetadataV1, NfpRecordV1, nfp_native_kind}
use rnde_m.Experience.Records.Adapter.{
  ParsedRecord, legacy, nfp_native, malformed, unsupported, Fault, parse,
}

pub data RetrievalStatus : Type 0 where
  ok_found no_comparable_records invalid_query store_invalid unsupported_memory_present :
      RetrievalStatus

-- `NFPFeedbackTargetCore.from_record` of clc/expsm/nfp_feedback_target.py
abbrev pub target_core_of : {V : Type 0} → NfpRecordV1 V → FeedbackTargetCore V
target_core_of r = record {
  record_kind = nfp_native_kind;
  representation_version = 1;
  context = r.context;
  action = r.action;
  effect = r.effect;
  source_support_count = r.creation_metadata.source_support_count;
  source_proposal_id = r.creation_metadata.source_proposal_id;
  created_active_tick = r.creation_metadata.created_active_tick;
  initialization_profile = r.creation_metadata.initialization_profile;
  created_at_world = r.created_at_world;
}

pub record RetrievalCandidate (V : Type 0) : Type 0 where
  pub candidate_id : Text
  pub source_experience_id : Text
  pub context_similarity : V
  pub action : SerializedNfpActionV1 V
  pub effect : SerializedObservedEffectV1 V
  pub hits : ℕ
  pub misses : ℕ
  pub confidence : V
  pub repeatability : V
  pub creation_provenance : Option CreationMetadataV1
  pub target_core : Option (FeedbackTargetCore V)

-- A text of the source, what is wrong with a record, or `str(exc)` of reading the file.
pub data Reason : Type 0 where
  says : String → Reason
  faulty : Fault → Reason
  unreadable : Text → Reason

pub record RetrievalResult (V : Type 0) : Type 0 where
  pub status : RetrievalStatus
  pub candidates : List (RetrievalCandidate V)
  pub reason : Reason
  pub legacy_records_seen : ℕ

abbrev pub unanswered : {V : Type 0} → RetrievalStatus → Reason → RetrievalResult V
unanswered status reason = record {
  status = status;
  candidates = [];
  reason = reason;
  legacy_records_seen = 0;
}

-- `is_authorized`
unfoldable pub is_authorized : {V : Type 0} → NfpWindow V → Bool
is_authorized w = all (λ f. eq_origin f.origin external_sensory) (frames w)

-- `f"nfp_retrieval_candidate:{n}"`
unfoldable pub retrieval_name : ℕ → Text
retrieval_name n = codes "nfp_retrieval_candidate:" ++ decimal n

module _ {V : Type 0} where
  -- The first malformed and the first unsupported record, and the number of legacy ones.
  abbrev pub first_malformed : List (ParsedRecord V) → Option Fault
  first_malformed [] = none
  first_malformed (malformed id e ∷ rest) = some e
  first_malformed (legacy id c a r m o ∷ rest) = first_malformed rest
  first_malformed (nfp_native r ∷ rest) = first_malformed rest
  first_malformed (unsupported id k v e ∷ rest) = first_malformed rest

  abbrev pub first_unsupported : List (ParsedRecord V) → Option String
  first_unsupported [] = none
  first_unsupported (unsupported id k v why ∷ rest) = some why
  first_unsupported (malformed id e ∷ rest) = first_unsupported rest
  first_unsupported (legacy id c a r m o ∷ rest) = first_unsupported rest
  first_unsupported (nfp_native r ∷ rest) = first_unsupported rest

  abbrev pub count_legacy : List (ParsedRecord V) → ℕ
  count_legacy [] = 0
  count_legacy (legacy id c a r m o ∷ rest) = count_legacy rest + 1
  count_legacy (malformed id e ∷ rest) = count_legacy rest
  count_legacy (nfp_native r ∷ rest) = count_legacy rest
  count_legacy (unsupported id k v e ∷ rest) = count_legacy rest

  -- `isinstance(value, dict)`
  abbrev pub dictionary : Json V → Option (Fields V)
  dictionary (object fields) = some fields
  dictionary null = none
  dictionary (boolean b) = none
  dictionary (integer n) = none
  dictionary (number v) = none
  dictionary (text t) = none
  dictionary (list js) = none

module _ (F : Floats) where
  open F use {Float, zero_f, one_f, lt_f, is_finite, sum_f, sub_f, div_f, from_int}

  -- `NFPExpSMRetrievalConfig.__post_init__`, of a threshold that is a float
  unfoldable pub make_retrieval_config : Float → Result Float
  make_retrieval_config threshold = do
    raise_if (not (is_finite threshold) || (lt_f threshold zero_f || lt_f one_f threshold))
        "context_similarity_threshold must be in [0.0, 1.0]"
    ok threshold

  -- The scores of the frames, and their sum when clamped.
  unfoldable pub stored_scores : ℕ → List (NfpFrame Float) → List (List Float) → List Float
  unfolding total_difference
  stored_scores size [] stored = []
  stored_scores size (f ∷ fs) [] = []
  stored_scores size (f ∷ fs) (values ∷ stored) =
      sub_f one_f (div_f (total_difference F f.values values) (from_int size))
      ∷ stored_scores size fs stored

  unfoldable pub sum_clamped : List Float → Float
  unfolding clamp
  sum_clamped scores = sum_f (map (clamp F) scores)

  -- `LivePersistentNFPContextSimilarity.compare`
  unfoldable pub compare_context :
      NfpWindow Float → SerializedNfpContextV1 Float → NfpSimilarityResult Float
  unfolding stored_scores sum_clamped
  compare_context live stored =
      if not (eq_text (modality_value (modality live)) stored.modality)
      then incomparable "different_modality"
      else if not (eq_text (topology live).shape stored.topology)
      then incomparable "different_topology"
      else if not (frame_count live == length stored.frames)
      then incomparable "different_frame_count"
      else let scores = stored_scores (size (topology live)) (frames live) stored.frames in
        let mean = div_f (sum_clamped scores) (from_int (frame_count live)) in scored (clamp F mean)

  abbrev pub candidate_of : ℕ → Float → NfpRecordV1 Float → RetrievalCandidate Float
  candidate_of n similarity r = record {
    candidate_id = retrieval_name n;
    source_experience_id = r.record_id;
    context_similarity = similarity;
    action = r.action;
    effect = r.effect;
    hits = r.operational.hits;
    misses = r.operational.misses;
    confidence = r.operational.confidence;
    repeatability = r.operational.repeatability;
    creation_provenance = some r.creation_metadata;
    target_core = some (target_core_of r);
  }

  -- The variables of the loop.
  pub record Found : Type 0 where
    pub candidates : List (RetrievalCandidate Float)
    pub comparable_count : ℕ

  -- One native record, by the score of its comparison.
  abbrev pub admit_scored : Float → NfpRecordV1 Float → Option Float → Found → Found
  admit_scored threshold r none s = s
  admit_scored threshold r (some score) s =
      let counted = record s { comparable_count = s.comparable_count + 1 } in
      if lt_f score threshold then counted else record counted {
        candidates = s.candidates ++ candidate_of (length s.candidates + 1) score r ∷ [];
      }

  -- `comparison.score` where `comparison.comparable`
  abbrev pub comparable_score : NfpSimilarityResult Float → Option Float
  comparable_score c = if c.comparable then c.score else none

  -- The loop over the parsed records.
  unfoldable pub collect : NfpWindow Float → Float → List (ParsedRecord Float) → Found → Found
  unfolding compare_context
  collect live threshold [] s = s
  collect live threshold (nfp_native r ∷ rest) s =
      collect live threshold rest
        (admit_scored threshold r (comparable_score (compare_context live r.context)) s)
  collect live threshold (legacy id c a r m o ∷ rest) s = collect live threshold rest s
  collect live threshold (malformed id e ∷ rest) s = collect live threshold rest s
  collect live threshold (unsupported id k v e ∷ rest) s = collect live threshold rest s

  -- What is returned after the loop.
  abbrev pub answer : ℕ → Found → RetrievalResult Float
  answer seen (s) = elim s.candidates [
    | c ∷ cs ↦ record {
      status = ok_found;
      candidates = c ∷ cs;
      reason = says "";
      legacy_records_seen = seen;
    }
    | [] ↦ record {
      status = no_comparable_records;
      candidates = [];
      reason = says (
          if ltb 0 s.comparable_count
          then "below_native_threshold"
          else "no_structurally_comparable_native_records");
      legacy_records_seen = seen;
    }
  ]

  -- `retrieve` on parsed records.
  unfoldable pub retrieve_parsed :
      NfpWindow Float → Float → List (ParsedRecord Float) → RetrievalResult Float
  unfolding collect
  retrieve_parsed live threshold parsed = elim (first_malformed parsed) [
    | some e ↦ unanswered store_invalid (faulty e)
    | none ↦ elim (first_unsupported parsed) [
      | some why ↦ unanswered unsupported_memory_present (says why)
      | none ↦
          answer (count_legacy parsed)
            (collect live threshold parsed (record { candidates = []; comparable_count = 0 }))
    ]
  ]

  module _ (is_numeric : Text → Bool) where
    -- `ExpSMRecordAdapter.parse` of each item
    unfoldable pub parse_items : Fields Float → Result (List (ParsedRecord Float))
    unfolding parse
    parse_items end = ok []
    parse_items (field id raw rest) = do
      parsed ← parse F is_numeric id raw
      others ← parse_items rest
      ok (parsed ∷ others)

    abbrev pub retrieve_sections :
        NfpWindow Float
        → Float
        → Option (Fields Float)
        → Option (Fields Float)
        → Result (RetrievalResult Float)
    retrieve_sections live threshold none reflexes =
        ok (unanswered store_invalid (says "experience and reflexes must be objects"))
    retrieve_sections live threshold (some experiences) none =
        ok (unanswered store_invalid (says "experience and reflexes must be objects"))
    retrieve_sections live threshold (some experiences) (some reflexes) =
        parse_items experiences >>= λ parsed. ok (retrieve_parsed live threshold parsed)

    abbrev pub retrieve_store :
        NfpWindow Float → Float → Option (Fields Float) → Result (RetrievalResult Float)
    retrieve_store live threshold none =
        ok (unanswered store_invalid (says "store must be an object"))
    retrieve_store live threshold (some store) =
        retrieve_sections live threshold (dictionary (get (codes "experience") store))
          (dictionary (get (codes "reflexes") store))

  -- What reading the store gave.
  pub data Loaded : Type 0 where
    loaded : Json Float → Loaded
    failed : Text → Loaded

  module _ (is_numeric : Text → Bool) where
    -- `retrieve`
    unfoldable pub retrieve : NfpWindow Float → Float → Loaded → Result (RetrievalResult Float)
    unfolding retrieve_parsed parse_items is_authorized
    retrieve live threshold (failed why) =
        if not (is_authorized live)
        then ok (unanswered invalid_query (says "external_sensory_required"))
        else ok (unanswered store_invalid (unreadable why))
    retrieve live threshold (loaded raw_store) =
        if not (is_authorized live)
        then ok (unanswered invalid_query (says "external_sensory_required"))
        else retrieve_store is_numeric live threshold (dictionary raw_store)
