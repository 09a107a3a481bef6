-- ===== src/Experience/Records/Metadata.antt =====
-- The metadata of a native record (clc/experience/expsm_representation.py) is read back as written.
use rnde_m.Prelude.{
  ◌≡◌, refl, subst, true, false, Option, none, some, ◌==◌, arith, String, ok, Result-cases,
  Bool-cases, inl, inr, Text, eq_text, is_empty, strip, strip-strip,
}
use rnde_m.Experience.Json.{
  Json, text, is_null, string, int, non_negative_int, positive_int, non_empty_string, mapping,
}
use rnde_m.Experience.Records.{
  CreationMetadataV1, make_creation, creation_json, creation_from_json, optional_string,
  legacy_crud_defaults_profile,
}

-- A text that is not empty and has nothing to strip.
pub record IsNamed (t : Text) : Type 0 where
  pub stripped : strip t ≡ t
  pub not_empty : is_empty t ≡ false

module _ (V : Type 0) where
  pub non_empty_string-IsNamed :
      (kind message : String) (j : Json V) (t : Text)
      → non_empty_string kind message j ≡ ok t
      → IsNamed t
  unfolding non_empty_string
  non_empty_string-IsNamed kind message j t h = elim (Result-cases (string kind j)) [
    | inl (e, bad) ↦ absurd (ground arith)
    | inr (s, good) ↦
        let same : strip s ≡ t = ground arith in
        record {
          stripped = subst (λ x. strip x ≡ x) same (strip-strip s);
          not_empty = subst (λ x. is_empty x ≡ false) same (ground arith);
        }
  ]

  pub non_empty_string-read :
      (kind message : String) (t : Text)
      → IsNamed t
      → non_empty_string {V = V} kind message (text t) ≡ ok t
  unfolding non_empty_string string
  non_empty_string-read kind message t h = rw (h.stripped, h.not_empty) refl

  abbrev pub IsOptional : Option Text → Type 0
  IsOptional none = Unit
  IsOptional (some t) = IsNamed t

  pub optional_string-IsOptional :
      (kind message : String) (j : Json V) (o : Option Text)
      → optional_string kind message j ≡ ok o
      → IsOptional o
  unfolding optional_string
  optional_string-IsOptional kind message j o h = elim (Bool-cases (is_null j)) [
    | inl empty ↦ subst IsOptional (let same : none ≡ o = ground arith in same) tt
    | inr full ↦ elim (Result-cases (non_empty_string kind message j)) [
      | inl (e, bad) ↦ absurd (ground arith)
      | inr (t, good) ↦
          subst IsOptional (let same : some t ≡ o = ground arith in same)
            (non_empty_string-IsNamed kind message j t good)
    ]
  ]

  pub record IsCreation (c : CreationMetadataV1) : Type 0 where
    pub supported : (c.source_support_count == 0) ≡ false
    pub proposed : IsNamed c.source_proposal_id
    pub profiled : eq_text c.initialization_profile legacy_crud_defaults_profile ≡ true
    pub profile_named : IsNamed c.initialization_profile

  pub make_creation-IsCreation :
      (count proposal tick profile : Json V) (c : CreationMetadataV1)
      → make_creation count proposal tick profile ≡ ok c
      → IsCreation c
  unfolding make_creation positive_int
  make_creation-IsCreation count proposal tick profile c h =
      elim (Result-cases (
        non_negative_int "source_support_count must be an integer"
          "source_support_count must be >= 0" count)) [
            | inl (e, bad) ↦ absurd (ground arith)
            | inr (n, counted) ↦
                elim (Result-cases (
                  non_empty_string "source_proposal_id must be a string"
                    "source_proposal_id must be non-empty" proposal)) [
                      | inl (e, bad) ↦ absurd (ground arith)
                      | inr (id, proposed) ↦
                          elim (Result-cases (
                            non_negative_int "created_active_tick must be an integer"
                              "created_active_tick must be >= 0" tick)) [
                                | inl (e, bad) ↦ absurd (ground arith)
                                | inr (t, ticks) ↦
                                    elim (Result-cases (
                                      non_empty_string "initialization_profile must be a string"
                                        "initialization_profile must be non-empty" profile)) [
                                          | inl (e, bad) ↦ absurd (ground arith)
                                          | inr (name, named) ↦
                                              subst IsCreation
                                                (let same : record {
                                                  source_support_count = n;
                                                  source_proposal_id = id;
                                                  created_active_tick = t;
                                                  initialization_profile = name;
                                                }
                                                      ≡ c =
                                                    ground arith in
                                                  same)
                                                (record {
                                                  supported = ground arith;
                                                  proposed =
                                                      non_empty_string-IsNamed
                                                        "source_proposal_id must be a string"
                                                        "source_proposal_id must be non-empty"
                                                        proposal id proposed;
                                                  profiled = ground arith;
                                                  profile_named =
                                                      non_empty_string-IsNamed
                                                        "initialization_profile must be a string"
                                                        "initialization_profile must be non-empty"
                                                        profile name named;
                                                })
                                        ]
                              ]
                    ]
          ]

  pub creation_from_json-read :
      (c : CreationMetadataV1) → IsCreation c → creation_from_json (creation_json {V = V} c) ≡ ok c
  unfolding creation_from_json creation_json mapping make_creation positive_int non_negative_int int
      eq_text
  creation_from_json-read c h = ground (
    arith,
    h.supported,
    h.profiled,
    non_empty_string-read "source_proposal_id must be a string"
        "source_proposal_id must be non-empty" c.source_proposal_id h.proposed,
    non_empty_string-read "initialization_profile must be a string"
        "initialization_profile must be non-empty" c.initialization_profile h.profile_named,
  )
