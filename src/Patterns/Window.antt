-- ===== src/Patterns/Window.antt =====
-- `NFPWindow` of clc/patterns/model.py. The frames are a first one and the rest, since the
-- constructor refuses an empty tuple.
pub mod Laws
use rnde_m.Prelude.{
  ℕ, Bool, true, false, not, Option, none, some, List, [], ◌∷◌, leb, Checked, Result, ok, raised,
  value_error, ◌>>=◌, ◌>>◌, raise_if, Text, is_empty, strip, last_of, length,
}
use rnde_m.Patterns.Model.{
  PatternModality, PatternTopology, NfpFrame, eq_modality, eq_topology, contains, clean_ref,
}

pub record NfpWindow (V : Type 0) : Type 0 where
  pub window_id : Text
  pub first : NfpFrame V
  pub rest : List (NfpFrame V)
  pub provenance_ref : Option Text
  pub debug_name : Option Text

-- `previous_tick is not None and tick <= previous_tick`
abbrev pub not_after : Option ℕ → ℕ → Bool
not_after none tick = false
not_after (some previous) tick = leb tick previous

module _ {V : Type 0} where
  abbrev pub frames : NfpWindow V → List (NfpFrame V)
  frames w = w.first ∷ w.rest

  -- `frames[-1]`
  abbrev pub last_frame : NfpWindow V → NfpFrame V
  last_frame w = last_of w.first w.rest

  -- The properties `modality`, `topology`, `start_tick`, `end_tick` and `length`.
  abbrev pub modality : NfpWindow V → PatternModality
  modality w = w.first.modality

  abbrev pub topology : NfpWindow V → PatternTopology
  topology w = w.first.topology

  abbrev pub start_tick : NfpWindow V → ℕ
  start_tick w = w.first.active_tick

  abbrev pub end_tick : NfpWindow V → ℕ
  end_tick w = (last_frame w).active_tick

  abbrev pub frame_count : NfpWindow V → ℕ
  frame_count w = length (frames w)

  -- The loop of `NFPWindow.__post_init__`, with `seen_ids` and `previous_tick`.
  unfoldable pub check_frames :
      PatternModality → PatternTopology → List Text → Option ℕ → List (NfpFrame V) → Checked
  check_frames m t seen previous [] = ok tt
  check_frames m t seen previous (f ∷ fs) = do
    raise_if (not (eq_modality f.modality m)) "NFPWindow frames must share modality"
    raise_if (not (eq_topology f.topology t)) "NFPWindow frames must share topology"
    raise_if (not_after previous f.active_tick) "NFPWindow frame ticks must be strictly increasing"
    raise_if (contains seen f.frame_id) "duplicate frame_id values are not allowed in one window"
    check_frames m t (f.frame_id ∷ seen) (some f.active_tick) fs

  abbrev nonempty_window :
      Text → NfpFrame V → List (NfpFrame V) → Option Text → Option Text → Result (NfpWindow V)
  nonempty_window id f fs provenance debug = do
    check_frames f.modality f.topology [] none (f ∷ fs)
    ok (record {
      window_id = id;
      first = f;
      rest = fs;
      provenance_ref = clean_ref provenance;
      debug_name = debug;
    })

  abbrev some_window : Text → List (NfpFrame V) → Option Text → Option Text → Result (NfpWindow V)
  some_window id [] provenance debug = raised (value_error "NFPWindow requires at least one frame")
  some_window id (f ∷ fs) provenance debug = nonempty_window id f fs provenance debug

  unfoldable pub make_window :
      Text → List (NfpFrame V) → Option Text → Option Text → Result (NfpWindow V)
  make_window id fs provenance debug = do
    raise_if (is_empty (strip id)) "window_id must be non-empty"
    some_window (strip id) fs provenance debug
