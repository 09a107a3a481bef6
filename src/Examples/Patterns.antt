-- ===== src/Examples/Patterns.antt =====
-- Examples for clc/patterns.
use rnde_m.Prelude.{
  ◌+◌, ◌≤◌, ◌≡◌, ◌↔◌, refl, true, false, none, some, [], ◌∷◌, ok, accepts, codes, is_blank,
  is_space, strip, eq_text, ℤ, pos,
}
use rnde_m.Prelude.Floats.{clamp}
use rnde_m.Patterns.Model.{size, eq_modality, eq_topology, contains, clean_ref}
use rnde_m.Patterns.Window
use rnde_m.Patterns.Window.{check_frames, make_window, frames, modality, topology, frame_count}
use rnde_m.Patterns.Window.Laws.{IsWindow, make_window-accepts_iff, window_span}
use rnde_m.Patterns.Sequence.{NfpSequence, make_sequence, check_windows}
use rnde_m.Patterns.Similarity.{
  compare_windows, compare_frames, frame_scores, any_missing, present, sum_scores, differences,
  total_difference,
}
use rnde_m.Patterns.Similarity.Laws.{compare_windows-comparable_iff, compare_windows_bounds}
use rnde_m.Examples.Thousandths.{thousandths}
use rnde_m.Examples.Sensors.{frame_at, two_frames, two_frames-IsWindow, later_frames-IsWindow}

-- Two frames at one tick are refused.
same_tick_refused :
    accepts (
      make_window
        (codes "w")
        (frame_at 4 (pos 0) (pos 0) ∷ frame_at 4 (pos 1) (pos 0) ∷ [])
        none
        none)
    ≡ false
unfolding make_window strip is_space check_frames eq_modality eq_topology contains eq_text
same_tick_refused = refl

make_window-accepts_iff_example :
    (accepts (make_window (codes "window") (frames (two_frames 4 5)) none none) ≡ true)
    ↔ ((is_blank (codes "window") ≡ false) × IsWindow (frames (two_frames 4 5)))
make_window-accepts_iff_example =
    make_window-accepts_iff (codes "window") (frames (two_frames 4 5)) none none

window_span_example : Window.start_tick (two_frames 4 5) + 1 ≤ Window.end_tick (two_frames 4 5)
window_span_example = window_span (two_frames 4 5) two_frames-IsWindow

abbrev glances : NfpSequence ℤ
glances = record {
  sequence_id = codes "glances";
  first = two_frames 4 5;
  rest = two_frames 5 6 ∷ [];
  provenance_ref = none;
  debug_name = none;
}

glances_made :
    make_sequence (codes "glances") (two_frames 4 5 ∷ two_frames 5 6 ∷ []) none none ≡ ok glances
unfolding make_sequence strip is_space check_windows eq_modality eq_topology eq_text clean_ref
glances_made = refl

compare_windows-comparable_iff_example :
    ((compare_windows thousandths (two_frames 4 5) (two_frames 5 6)).comparable ≡ true) ↔ (
      (modality (two_frames 4 5) ≡ modality (two_frames 5 6))
      × (topology (two_frames 4 5) ≡ topology (two_frames 5 6))
      × (frame_count (two_frames 4 5) ≡ frame_count (two_frames 5 6)))
compare_windows-comparable_iff_example =
    compare_windows-comparable_iff thousandths (two_frames 4 5) (two_frames 5 6) two_frames-IsWindow
      later_frames-IsWindow

same_window_score :
    (compare_windows thousandths (two_frames 4 5) (two_frames 5 6)).score ≡ some (pos 1000)
unfolding compare_windows compare_frames frame_scores any_missing present sum_scores differences
    total_difference clamp size eq_modality eq_topology eq_text
same_window_score = refl

compare_windows_bounds_example :
    (thousandths.le_f (pos 0) (pos 1000) ≡ true) × (thousandths.le_f (pos 1000) (pos 1000) ≡ true)
compare_windows_bounds_example =
    compare_windows_bounds thousandths (two_frames 4 5) (two_frames 5 6) (pos 1000)
      same_window_score
