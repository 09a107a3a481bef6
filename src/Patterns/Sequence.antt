-- ===== src/Patterns/Sequence.antt =====
-- `NFPSequence` of clc/patterns/model.py: windows in temporal order, and its derived ticks.
pub mod Laws
use rnde_m.Prelude.{
  ℕ, Bool, false, not, Option, none, some, List, [], ◌∷◌, ltb, if◌then◌else◌, Checked, Result, ok,
  raised, value_error, ◌>>=◌, ◌>>◌, raise_if, Text, is_empty, strip, length,
}
use rnde_m.Patterns.Model.{PatternModality, PatternTopology, eq_modality, eq_topology, clean_ref}
use rnde_m.Patterns.Window
use rnde_m.Patterns.Window.{NfpWindow}

pub record NfpSequence (V : Type 0) : Type 0 where
  pub sequence_id : Text
  pub first : NfpWindow V
  pub rest : List (NfpWindow V)
  pub provenance_ref : Option Text
  pub debug_name : Option Text

-- `previous_start is not None and start < previous_start`
abbrev pub goes_back : Option ℕ → ℕ → Bool
goes_back none start = false
goes_back (some previous) start = ltb start previous

-- The builtins `min` and `max` over a non-empty collection.
unfoldable pub min_of : ℕ → List ℕ → ℕ
min_of best [] = best
min_of best (n ∷ ns) = min_of (if ltb n best then n else best) ns

unfoldable pub max_of : ℕ → List ℕ → ℕ
max_of best [] = best
max_of best (n ∷ ns) = max_of (if ltb best n then n else best) ns

module _ {V : Type 0} where
  abbrev pub windows : NfpSequence V → List (NfpWindow V)
  windows s = s.first ∷ s.rest

  -- The loop of `NFPSequence.__post_init__`.
  unfoldable pub check_windows :
      PatternModality → PatternTopology → Option ℕ → List (NfpWindow V) → Checked
  check_windows m t previous [] = ok tt
  check_windows m t previous (w ∷ ws) = do
    raise_if (not (eq_modality (Window.modality w) m)) "NFPSequence windows must share modality"
    raise_if (not (eq_topology (Window.topology w) t)) "NFPSequence windows must share topology"
    raise_if (goes_back previous (Window.start_tick w))
        "NFPSequence windows must be ordered by temporal position"
    check_windows m t (some (Window.start_tick w)) ws

  abbrev some_sequence :
      Text → List (NfpWindow V) → Option Text → Option Text → Result (NfpSequence V)
  some_sequence id [] provenance debug =
      raised (value_error "NFPSequence requires at least one window")
  some_sequence id (w ∷ ws) provenance debug = do
    check_windows (Window.modality w) (Window.topology w) none (w ∷ ws)
    ok (record {
      sequence_id = id;
      first = w;
      rest = ws;
      provenance_ref = clean_ref provenance;
      debug_name = debug;
    })

  unfoldable pub make_sequence :
      Text → List (NfpWindow V) → Option Text → Option Text → Result (NfpSequence V)
  make_sequence id ws provenance debug = do
    raise_if (is_empty (strip id)) "sequence_id must be non-empty"
    some_sequence (strip id) ws provenance debug

  abbrev starts : List (NfpWindow V) → List ℕ
  starts [] = []
  starts (w ∷ ws) = Window.start_tick w ∷ starts ws

  abbrev ends : List (NfpWindow V) → List ℕ
  ends [] = []
  ends (w ∷ ws) = Window.end_tick w ∷ ends ws

  -- The properties `start_tick`, `end_tick` and `window_count`.
  unfoldable pub start_tick : NfpSequence V → ℕ
  unfolding min_of
  start_tick s = min_of (Window.start_tick s.first) (starts s.rest)

  unfoldable pub end_tick : NfpSequence V → ℕ
  unfolding max_of
  end_tick s = max_of (Window.end_tick s.first) (ends s.rest)

  unfoldable pub window_count : NfpSequence V → ℕ
  window_count s = length (windows s)
