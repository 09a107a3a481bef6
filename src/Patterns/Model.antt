-- ===== src/Patterns/Model.antt =====
-- clc/patterns/model.py: modalities, origins, topologies, frames and moments, each dataclass with
-- its `__post_init__` as a function that raises. A frame is generic in the type of its values.
use rnde_m.Prelude.{
  ℕ, suc, ◌*◌, ◌≡◌, ◌↔◌, Bool, true, false, ◌||◌, not, Option, none, some, List, [], ◌∷◌, map,
  arith, ltb, ◌==◌, if◌then◌else◌, length, any, ℤ, pos, negsuc, Checked, Result, ok, ◌>>=◌, ◌>>◌,
  raise_if, non_negative, Text, eq_text, is_empty, strip,
}
use rnde_m.Prelude.Floats.{Floats}

pub data PatternModality : Type 0 where
  visual audio internal pain_damage reward_success action : PatternModality

pub data PatternOrigin : Type 0 where
  external_sensory internal_state internal_reactivation action_generated : PatternOrigin

abbrev modality_tag : PatternModality → ℕ
modality_tag visual = 0
modality_tag audio = 1
modality_tag internal = 2
modality_tag pain_damage = 3
modality_tag reward_success = 4
modality_tag action = 5

unfoldable pub eq_modality : PatternModality → PatternModality → Bool
eq_modality a b = modality_tag a == modality_tag b

abbrev origin_tag : PatternOrigin → ℕ
origin_tag external_sensory = 0
origin_tag internal_state = 1
origin_tag internal_reactivation = 2
origin_tag action_generated = 3

unfoldable pub eq_origin : PatternOrigin → PatternOrigin → Bool
eq_origin a b = origin_tag a == origin_tag b

pub eq_modality_iff : (a b : PatternModality) → (eq_modality a b ≡ true) ↔ (a ≡ b)
unfolding eq_modality
eq_modality_iff a b = ground arith

pub eq_origin_iff : (a b : PatternOrigin) → (eq_origin a b ≡ true) ↔ (a ≡ b)
unfolding eq_origin
eq_origin_iff a b = ground arith

pub record PatternTopology : Type 0 where
  pub shape : List ℕ

unfoldable pub eq_topology : PatternTopology → PatternTopology → Bool
eq_topology a b = eq_text a.shape b.shape

unfoldable pub product : List ℕ → ℕ
product [] = 1
product (d ∷ ds) = d * product ds

-- The property `size`.
unfoldable pub size : PatternTopology → ℕ
unfolding product
size t = product t.shape

abbrev pub is_positive : ℤ → Bool
is_positive (pos n) = ltb 0 n
is_positive (negsuc n) = false

abbrev pub magnitude : ℤ → ℕ
magnitude (pos n) = n
magnitude (negsuc n) = suc n

unfoldable pub make_topology : List ℤ → Result PatternTopology
make_topology shape = do
  raise_if (is_empty shape) "shape must not be empty"
  raise_if (any (λ d. not (is_positive d)) shape) "shape dimensions must be positive"
  ok (record { shape = map magnitude shape })

pub record NfpFrame (V : Type 0) : Type 0 where
  pub frame_id : Text
  pub modality : PatternModality
  pub origin : PatternOrigin
  pub topology : PatternTopology
  pub values : List V
  pub active_tick : ℕ
  pub provenance_ref : Option Text
  pub debug_name : Option Text

-- `None if ref is None else ref.strip()`, then `ref or None`
unfoldable pub clean_ref : Option Text → Option Text
clean_ref none = none
clean_ref (some ref) = if is_empty (strip ref) then none else some (strip ref)

module _ (F : Floats) where
  open F use {Float, zero_f, one_f, lt_f, is_finite}

  -- The loop of `NFPFrame.__post_init__` over the values.
  unfoldable pub check_values : List Float → Checked
  check_values [] = ok tt
  check_values (v ∷ vs) = do
    raise_if (not (is_finite v)) "activation values must be finite"
    raise_if (lt_f v zero_f || lt_f one_f v) "activation values must be in [0.0, 1.0]"
    check_values vs

  -- The arguments are the fields in their order.
  unfoldable pub make_frame :
      Text
      → PatternModality
      → PatternOrigin
      → PatternTopology
      → List Float
      → ℤ
      → Option Text
      → Option Text
      → Result (NfpFrame Float)
  unfolding check_values
  make_frame id modality origin topology values tick provenance debug = do
    raise_if (is_empty (strip id)) "frame_id must be non-empty"
    t ← non_negative tick "active_tick must be >= 0"
    raise_if (not (length values == size topology)) "values length must equal topology size"
    check_values values
    ok (record {
      frame_id = strip id;
      modality = modality;
      origin = origin;
      topology = topology;
      values = values;
      active_tick = t;
      provenance_ref = clean_ref provenance;
      debug_name = debug;
    })

  -- `NFPReactivation.reactivate_frame` of clc/patterns/reactivation.py
  unfoldable pub reactivate_frame :
      NfpFrame Float → Text → ℤ → Option Text → Result (NfpFrame Float)
  unfolding make_frame
  reactivate_frame f id tick debug =
      make_frame id f.modality internal_reactivation f.topology f.values tick (some f.frame_id)
        debug

-- `frame_id in seen_ids`, the set as the list of what was added
unfoldable pub contains : List Text → Text → Bool
contains [] id = false
contains (s ∷ seen) id = eq_text s id || contains seen id

pub record PatternMoment (V : Type 0) : Type 0 where
  pub active_tick : ℕ
  pub frames : List (NfpFrame V)

module _ {V : Type 0} where
  -- The loop of `PatternMoment.__post_init__`.
  unfoldable pub check_moment : ℕ → List Text → List (NfpFrame V) → Checked
  check_moment tick seen [] = ok tt
  check_moment tick seen (f ∷ fs) = do
    raise_if (not (f.active_tick == tick)) "frame active_tick must match moment active_tick"
    raise_if (contains seen f.frame_id) "duplicate frame_id values are not allowed in one moment"
    check_moment tick (f.frame_id ∷ seen) fs

  unfoldable pub make_moment : ℤ → List (NfpFrame V) → Result (PatternMoment V)
  unfolding check_moment contains
  make_moment tick frames = do
    t ← non_negative tick "active_tick must be >= 0"
    check_moment t [] frames
    ok (record { active_tick = t; frames = frames })
