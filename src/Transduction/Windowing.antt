-- ===== src/Transduction/Windowing.antt =====
-- clc/transduction/windowing.py: the sliding assembler of sensory windows. The deque with its bound is
-- a list and `append_bounded`.
pub mod Sliding
pub mod Series
pub mod Outcomes
pub mod Feeds
use rnde_m.Prelude.{
  ℕ, ◌+◌, Bool, true, false, not, Option, none, some, List, [], ◌∷◌, ◌++◌, ltb, leb, length, drop,
  if◌then◌else◌, ℤ, pos, negsuc, Result, ok, raised, value_error, raise_if, Text, codes,
}
use rnde_m.Prelude.Decimal.{decimal06}
use rnde_m.Prelude.State.{Method, pure, lift, gets, modify, ◌>>=◌, ◌>>◌}
use rnde_m.Patterns.Model.{
  PatternModality, PatternTopology, NfpFrame, external_sensory, eq_modality, eq_topology, eq_origin,
  contains,
}
use rnde_m.Patterns.Window.{NfpWindow, make_window, not_after}

pub record NfpWindowAssembler (V : Type 0) : Type 0 where
  pub window_size : ℕ
  pub frames : List (NfpFrame V)
  pub modality : Option PatternModality
  pub topology : Option PatternTopology
  pub last_tick : Option ℕ
  pub seen_frame_ids : List Text
  pub next_window_id : ℕ

-- `f"nfp_window:{n:06d}"`
unfoldable pub window_name : ℕ → Text
window_name n = codes "nfp_window:" ++ decimal06 n

-- `frame.modality == self._modality` and `frame.topology == self._topology`
abbrev pub is_modality : PatternModality → Option PatternModality → Bool
is_modality m none = false
is_modality m (some k) = eq_modality m k

abbrev pub is_topology : PatternTopology → Option PatternTopology → Bool
is_topology t none = false
is_topology t (some k) = eq_topology t k

module _ {V : Type 0} where
  abbrev pub fresh_assembler : ℕ → NfpWindowAssembler V
  fresh_assembler n = record {
    window_size = n;
    frames = [];
    modality = none;
    topology = none;
    last_tick = none;
    seen_frame_ids = [];
    next_window_id = 1;
  }

  -- `__post_init__`
  unfoldable pub make_assembler : ℤ → Result (NfpWindowAssembler V)
  make_assembler (negsuc n) = raised (value_error "window_size must be > 0")
  make_assembler (pos n) =
      if ltb 0 n then ok (fresh_assembler n) else raised (value_error "window_size must be > 0")

  -- `append` of a deque with `maxlen`: at the bound, the first element goes.
  unfoldable pub append_bounded : ℕ → List (NfpFrame V) → NfpFrame V → List (NfpFrame V)
  append_bounded bound fs f = (if leb bound (length fs) then drop 1 fs else fs) ++ f ∷ []

  -- `if self._modality is None`: the first frame sets the modality and the topology.
  abbrev pub adopt :
      Option PatternModality → NfpFrame V → NfpWindowAssembler V → NfpWindowAssembler V
  adopt none f s = record s { modality = some f.modality; topology = some f.topology }
  adopt (some m) f s = s

  -- The guards of `push`.
  unfoldable pub admit : NfpFrame V → Method (NfpWindowAssembler V) (Unit {0})
  admit f = do
    lift (
        raise_if (not (eq_origin f.origin external_sensory))
          "sensory windows accept EXTERNAL_SENSORY frames only")
    known ← gets (λ s. s.modality)
    modify (adopt known f)
    modality ← gets (λ s. s.modality)
    lift (
        raise_if (not (is_modality f.modality modality))
          "all sensory window frames must share modality")
    topology ← gets (λ s. s.topology)
    lift (
        raise_if (not (is_topology f.topology topology))
          "all sensory window frames must share topology")
    seen ← gets (λ s. s.seen_frame_ids)
    lift (raise_if (contains seen f.frame_id) "duplicate frame_id values are not allowed")
    last ← gets (λ s. s.last_tick)
    lift (raise_if (not_after last f.active_tick) "frame ticks must be strictly increasing")

  -- The updates, and the window if there are enough frames.
  unfoldable pub emit : NfpFrame V → Method (NfpWindowAssembler V) (Option (NfpWindow V))
  unfolding append_bounded
  emit f = do
    modify (λ s. record s { frames = append_bounded s.window_size s.frames f })
    modify (λ s. record s { seen_frame_ids = f.frame_id ∷ s.seen_frame_ids })
    modify (λ s. record s { last_tick = some f.active_tick })
    fs ← gets (λ s. s.frames)
    size ← gets (λ s. s.window_size)
    if ltb (length fs) size then pure none else do
      n ← gets (λ s. s.next_window_id)
      w ← lift (make_window (window_name n) fs none none)
      modify (λ s. record s { next_window_id = s.next_window_id + 1 })
      pure (some w)

  unfoldable pub push : NfpFrame V → Method (NfpWindowAssembler V) (Option (NfpWindow V))
  push f = do admit f; emit f
