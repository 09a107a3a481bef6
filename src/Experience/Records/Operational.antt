-- ===== src/Experience/Records/Operational.antt =====
-- The operational metadata of a native record (clc/experience/expsm_representation.py) is read back as
-- it was written.
use rnde_m.Prelude.{◌≡◌, subst, arith, String, ok, Result-cases, inl, inr}
use rnde_m.Prelude.Floats.{Floats}
use rnde_m.Experience.Effects.Laws.{IsUnit}
use rnde_m.Experience.Json.{Json, number, int, non_negative_int, number_of, unit_float}
use rnde_m.Experience.Records.{OperationalMetadataV1, make_operational, natural}

module _ (F : Floats) where
  open F use {Float}

  pub record IsOperational (o : OperationalMetadataV1 Float) : Type 0 where
    pub confident : IsUnit F o.confidence
    pub repeatable : IsUnit F o.repeatability

  unit_float-IsUnit :
      (kind message range : String) (j : Json Float) (v : Float)
      → unit_float F kind message range j ≡ ok v
      → IsUnit F v
  unfolding unit_float number_of
  unit_float-IsUnit kind message range j v h = record {
    finite = ground arith;
    not_below = ground arith;
    not_above = ground arith;
  }

  pub make_operational-IsOperational :
      (hits misses confidence repeatability : Json Float) (o : OperationalMetadataV1 Float)
      → make_operational F hits misses confidence repeatability ≡ ok o
      → IsOperational o
  unfolding make_operational
  make_operational-IsOperational hits misses confidence repeatability o h =
      elim (Result-cases (non_negative_int "hits must be an integer" "hits must be >= 0" hits)) [
        | inl (e, bad) ↦ absurd (ground arith)
        | inr (n, hit) ↦
            elim (Result-cases
              (non_negative_int "misses must be an integer" "misses must be >= 0" misses)) [
                | inl (e, bad) ↦ absurd (ground arith)
                | inr (m, missed) ↦
                    elim (Result-cases (
                      unit_float F "confidence must be numeric" "confidence must be finite"
                        "confidence must be in [0.0, 1.0]" confidence)) [
                          | inl (e, bad) ↦ absurd (ground arith)
                          | inr (c, sure) ↦
                              elim (Result-cases (
                                unit_float F "repeatability must be numeric"
                                  "repeatability must be finite"
                                  "repeatability must be in [0.0, 1.0]" repeatability)) [
                                    | inl (e, bad) ↦ absurd (ground arith)
                                    | inr (r, again) ↦
                                        subst IsOperational
                                          (let same : record {
                                            hits = n;
                                            misses = m;
                                            confidence = c;
                                            repeatability = r;
                                          }
                                                ≡ o =
                                              ground arith in
                                            same)
                                          (record {
                                            confident =
                                                unit_float-IsUnit "confidence must be numeric"
                                                  "confidence must be finite"
                                                  "confidence must be in [0.0, 1.0]" confidence c
                                                  sure;
                                            repeatable =
                                                unit_float-IsUnit "repeatability must be numeric"
                                                  "repeatability must be finite"
                                                  "repeatability must be in [0.0, 1.0]"
                                                  repeatability r again;
                                          })
                                  ]
                        ]
              ]
      ]

  pub make_operational-read :
      (o : OperationalMetadataV1 Float)
      → IsOperational o
      → make_operational F
          (natural o.hits)
          (natural o.misses)
          (number o.confidence)
          (number o.repeatability)
        ≡ ok o
  unfolding make_operational non_negative_int int unit_float number_of
  make_operational-read o h = ground arith
