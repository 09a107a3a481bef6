-- ===== src/Transduction/Visual/Laws.antt =====
-- A snapshot that was accepted becomes a frame.
use rnde_m.Prelude.{
  ℕ, suc, ◌≡◌, refl, ap, false, not, none, some, List, [], ◌∷◌, ◌++◌, map, arith, any, length, ℤ,
  pos, negsuc, ok, Text, codes, is_blank, strip, is_empty, ==_iff,
}
use rnde_m.Prelude.Decimal.{decimal06}
use rnde_m.Prelude.Floats.{Floats}
use rnde_m.Patterns.Model.{
  NfpFrame, visual, external_sensory, check_values, size, is_positive, magnitude, product,
  clean_ref,
}
use rnde_m.Transduction.Visual.{VisualFieldSnapshot, check_snapshot, make_snapshot, transduce}

pub map-magnitude-pos : (ds : List ℕ) → map magnitude (map pos ds) ≡ ds
map-magnitude-pos [] = refl
map-magnitude-pos (d ∷ ds) = ap (λ l. d ∷ l) (map-magnitude-pos ds)

pub length-magnitude : (ds : List ℤ) → length (map magnitude ds) ≡ length ds
length-magnitude [] = refl
length-magnitude (d ∷ ds) = ap suc (length-magnitude ds)

-- The dimensions that were found positive are so after the signs are off.
pub still_positive :
    (ds : List ℤ)
    → any (λ (d : ℤ). not (is_positive d)) ds ≡ false
    → any (λ (d : ℤ). not (is_positive d)) (map pos (map magnitude ds)) ≡ false
still_positive [] h = refl
still_positive (pos n ∷ ds) h = ground (arith, still_positive ds)
still_positive (negsuc n ∷ ds) h = absurd (cc)

module _ (F : Floats) where
  open F use {Float}

  check_values-snapshot :
      (vs : List Float) → check_snapshot F vs ≡ ok tt → check_values F vs ≡ ok tt
  unfolding check_snapshot check_values
  check_values-snapshot [] h = refl
  check_values-snapshot (v ∷ vs) h = ground (arith, check_values-snapshot vs)

  -- The frame of a snapshot under an id.
  abbrev pub frame_of : VisualFieldSnapshot Float → Text → NfpFrame Float
  frame_of s id = record {
    frame_id = strip id;
    modality = visual;
    origin = external_sensory;
    topology = record { shape = s.shape };
    values = s.values;
    active_tick = s.active_tick;
    provenance_ref = clean_ref (some (codes "sensor_snapshot:" ++ decimal06 s.snapshot_id));
    debug_name = none;
  }

  pub transduce_accepted :
      (s : VisualFieldSnapshot Float) (id : Text)
      → is_blank id ≡ false
      → is_empty (map pos s.shape) ≡ false
      → any (λ (d : ℤ). not (is_positive d)) (map pos s.shape) ≡ false
      → length s.values ≡ product s.shape
      → check_snapshot F s.values ≡ ok tt
      → transduce F s id ≡ ok (frame_of s id)
  unfolding transduce size
  transduce_accepted s id named dims positive sized checked =
      rw
        (
          dims,
          positive,
          map-magnitude-pos s.shape,
          named,
          (==_iff (length s.values) (product s.shape)).1 sized,
          check_values-snapshot s.values checked,
        )
        refl

  -- What the constructor of a snapshot leaves true of it.
  pub record IsSnapshot (s : VisualFieldSnapshot Float) : Type 0 where
    pub plane : length s.shape ≡ 2
    pub positive : any (λ (d : ℤ). not (is_positive d)) (map pos s.shape) ≡ false
    pub sized : length s.values ≡ product s.shape
    pub in_unit : check_snapshot F s.values ≡ ok tt

  make_snapshot-IsSnapshot :
      (shape : List ℤ) (values : List Float) (tick id : ℤ) (s : VisualFieldSnapshot Float)
      → make_snapshot F shape values tick id ≡ ok s
      → IsSnapshot s
  unfolding make_snapshot
  make_snapshot-IsSnapshot shape values (negsuc n) id s e = absurd (ground arith)
  make_snapshot-IsSnapshot shape values (pos n) (negsuc m) s e = absurd (ground arith)
  make_snapshot-IsSnapshot shape values (pos n) (pos m) s e = record {
    plane = ground (arith, length-magnitude shape);
    positive = ground (arith, still_positive shape);
    sized = ground (arith, ==_iff (length values) (product (map magnitude shape)));
    in_unit = ground arith;
  }

  pub plane-is_empty : (ds : List ℕ) → length ds ≡ 2 → is_empty (map pos ds) ≡ false
  plane-is_empty [] h = absurd (omega arith)
  plane-is_empty (d ∷ ds) h = refl

  -- A snapshot that the constructor returned is turned into a frame, whatever non-blank id it is
  -- given: no check of the topology or of the frame raises, and the frame has the snapshot's shape,
  -- values and tick.
  pub transduce_total :
      (shape : List ℤ) (values : List Float) (tick number : ℤ) (s : VisualFieldSnapshot Float)
      (id : Text)
      → make_snapshot F shape values tick number ≡ ok s
      → is_blank id ≡ false
      → transduce F s id ≡ ok (frame_of s id)
  transduce_total shape values tick number s id e named =
      let h = make_snapshot-IsSnapshot shape values tick number s e in
      transduce_accepted s id named (plane-is_empty s.shape h.plane) h.positive h.sized h.in_unit
