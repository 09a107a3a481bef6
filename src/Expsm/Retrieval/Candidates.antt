-- ===== src/Expsm/Retrieval/Candidates.antt =====
-- Which candidates a retrieval of clc/expsm/nfp_operational_retrieval.py returns, without its loop.
use rnde_m.Prelude.{
  ℕ, ◌+◌, ◌≡◌, refl, sym, ap, ◌∙◌, Option, none, some, List, [], ◌∷◌, ◌++◌, append_assoc,
  append-nil, length, length-append, is_empty, arith, if◌then◌else◌, Bool-cases, inl, inr,
}
use rnde_m.Prelude.Floats.{Floats}
use rnde_m.Patterns.Window.{NfpWindow}
use rnde_m.Experience.Records.{NfpRecordV1}
use rnde_m.Experience.Records.Adapter.{ParsedRecord, legacy, nfp_native, malformed, unsupported}
use rnde_m.Expsm.Retrieval.{
  RetrievalCandidate, ok_found, no_comparable_records, first_malformed, first_unsupported,
  compare_context, comparable_score, candidate_of, Found, admit_scored, collect, answer,
  retrieve_parsed,
}

module _ (F : Floats) where
  open F use {Float, lt_f}

  -- The records that resemble the live context enough, in the order of the store, with their scores.
  abbrev enough : Float → Option Float → NfpRecordV1 Float → List (Float × NfpRecordV1 Float)
  enough threshold none r = []
  enough threshold (some score) r = if lt_f score threshold then [] else (score, r) ∷ []

  unfoldable pub matching :
      NfpWindow Float → Float → List (ParsedRecord Float) → List (Float × NfpRecordV1 Float)
  matching live threshold [] = []
  matching live threshold (nfp_native r ∷ rest) =
      enough threshold (comparable_score F (compare_context F live r.context)) r
      ++ matching live threshold rest
  matching live threshold (legacy id c a q m o ∷ rest) = matching live threshold rest
  matching live threshold (malformed id e ∷ rest) = matching live threshold rest
  matching live threshold (unsupported id k v e ∷ rest) = matching live threshold rest

  -- Their candidates, numbered from a number on.
  unfoldable pub numbered : ℕ → List (Float × NfpRecordV1 Float) → List (RetrievalCandidate Float)
  numbered n [] = []
  numbered n ((score, r) ∷ rest) = candidate_of F n score r ∷ numbered (n + 1) rest

  numbered-append :
      (n : ℕ) (xs ys : List (Float × NfpRecordV1 Float))
      → numbered n (xs ++ ys) ≡ numbered n xs ++ numbered (n + length xs) ys
  unfolding numbered
  numbered-append n [] ys = ap (λ k. numbered k ys) (omega arith)
  numbered-append n ((score, r) ∷ xs) ys =
      ap (λ l. candidate_of F n score r ∷ l)
        (numbered-append (n + 1) xs ys
          ∙ ap (λ k. numbered (n + 1) xs ++ numbered k ys) (omega arith))

  admit_scored-enough :
      (threshold : Float) (r : NfpRecordV1 Float) (o : Option Float) (s : Found F)
      → (admit_scored F threshold r o s).candidates
        ≡ s.candidates ++ numbered (length s.candidates + 1) (enough threshold o r)
  unfolding numbered
  admit_scored-enough threshold r none s = sym (append-nil s.candidates)
  admit_scored-enough threshold r (some score) s = elim (Bool-cases (lt_f score threshold)) [
    | inl low ↦ rw low (sym (append-nil s.candidates))
    | inr high ↦ rw high refl
  ]

  length-numbered :
      (n : ℕ) (xs : List (Float × NfpRecordV1 Float)) → length (numbered n xs) ≡ length xs
  unfolding numbered
  length-numbered n [] = refl
  length-numbered n ((score, r) ∷ xs) = omega (arith, length-numbered (n + 1) xs)

  collect-matching :
      (live : NfpWindow Float) (threshold : Float) (parsed : List (ParsedRecord Float))
      (s : Found F)
      → (collect F live threshold parsed s).candidates
        ≡ s.candidates ++ numbered (length s.candidates + 1) (matching live threshold parsed)
  unfolding collect matching
  collect-matching live threshold [] s = unfold numbered in sym (append-nil s.candidates)
  collect-matching live threshold (nfp_native r ∷ rest) s =
      let o = comparable_score F (compare_context F live r.context) in
      let t = admit_scored F threshold r o s in
      let here = enough threshold o r in
      let later = matching live threshold rest in
      let n = length s.candidates + 1 in
      let grown = admit_scored-enough threshold r o s in
      let counted : length t.candidates + 1 ≡ n + length here = omega (
        arith,
        ap length grown,
        length-append s.candidates (numbered n here),
        length-numbered n here,
      ) in
      collect-matching live threshold rest t
      ∙ ap (λ k. t.candidates ++ numbered k later) counted
      ∙ ap (λ l. l ++ numbered (n + length here) later) grown
      ∙ append_assoc s.candidates (numbered n here) (numbered (n + length here) later)
      ∙ ap (λ l. s.candidates ++ l) (sym (numbered-append n here later))
  collect-matching live threshold (legacy id c a q m o ∷ rest) s =
      collect-matching live threshold rest s
  collect-matching live threshold (malformed id e ∷ rest) s = collect-matching live threshold rest s
  collect-matching live threshold (unsupported id k v e ∷ rest) s =
      collect-matching live threshold rest s

  answer-candidates :
      (seen : ℕ) (s : Found F)
      → ((answer F seen s).candidates ≡ s.candidates)
        × ((answer F seen s).status
            ≡ (if is_empty s.candidates then no_comparable_records else ok_found))
  answer-candidates seen s = ground arith

  -- From a store without malformed and unsupported records, the retrieval returns one candidate for
  -- each native record whose context is comparable with the live window and scores no less than the
  -- threshold, in the order of the store and numbered from 1; its status is OK exactly when there is
  -- one, and NO_COMPARABLE_RECORDS otherwise.
  pub retrieve_parsed-matching :
      (live : NfpWindow Float) (threshold : Float) (parsed : List (ParsedRecord Float))
      → first_malformed parsed ≡ none
      → first_unsupported parsed ≡ none
      → let r = retrieve_parsed F live threshold parsed in
        let found = numbered 1 (matching live threshold parsed) in
        (r.candidates ≡ found)
        × (r.status ≡ (if is_empty found then no_comparable_records else ok_found))
  unfolding retrieve_parsed
  retrieve_parsed-matching live threshold parsed h k =
      let s = collect F live threshold parsed (record { candidates = []; comparable_count = 0 }) in
      let same =
        collect-matching live threshold parsed (record { candidates = []; comparable_count = 0 }) in
      ground (arith, answer-candidates 0 s, same)
