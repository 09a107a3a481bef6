-- ===== src/Examples/Transduction.antt =====
-- Examples for clc/transduction.
use rnde_m.Prelude.{◌≡◌, refl, List, [], ◌∷◌, ok, pos, ℤ, codes, strip, map, arith, eq_text}
use rnde_m.Prelude.Decimal.{decimal06}
use rnde_m.Patterns.Model.{NfpFrame, product, eq_origin, eq_modality, eq_topology, contains}
use rnde_m.Patterns.Window.{frames, make_window, check_frames}
use rnde_m.Transduction.Windowing.{push, fresh_assembler, admit, emit, append_bounded, window_name}
use rnde_m.Transduction.Windowing.Series.{state_of}
use rnde_m.Transduction.Windowing.Outcomes.{Answer, push_answer}
use rnde_m.Transduction.Windowing.Feeds.{Fed, feed, feed_sliding}
use rnde_m.Examples.Sensors.{frame_at}
use rnde_m.Transduction.Visual.{VisualFieldSnapshot, check_snapshot, make_snapshot, transduce}
use rnde_m.Transduction.Visual.Laws.{frame_of, transduce_total}
use rnde_m.Examples.Thousandths.{thousandths}

abbrev snapshot : VisualFieldSnapshot ℤ
snapshot = record {
  shape = 1 ∷ 2 ∷ [];
  values = pos 300 ∷ pos 200 ∷ [];
  active_tick = 5;
  snapshot_id = 1;
}

taken :
    make_snapshot thousandths (pos 1 ∷ pos 2 ∷ []) (pos 300 ∷ pos 200 ∷ []) (pos 5) (pos 1)
    ≡ ok snapshot
unfolding make_snapshot product check_snapshot
taken = refl

transduce_total_example :
    transduce thousandths snapshot (codes "frame")
    ≡ ok (frame_of thousandths snapshot (codes "frame"))
unfolding strip
transduce_total_example =
    transduce_total thousandths (pos 1 ∷ pos 2 ∷ []) (pos 300 ∷ pos 200 ∷ []) (pos 5) (pos 1)
      snapshot (codes "frame") taken refl

-- The second frame comes twice.
abbrev pushed : List (NfpFrame ℤ)
pushed =
    frame_at 3 (pos 100) (pos 200)
    ∷ frame_at 4 (pos 300) (pos 200)
    ∷ frame_at 4 (pos 300) (pos 200)
    ∷ frame_at 6 (pos 300) (pos 200)
    ∷ []

push_answer_example :
    Answer 2
      (frame_at 3 (pos 100) (pos 200))
      []
      (push (frame_at 3 (pos 100) (pos 200)) (state_of 2 []))
push_answer_example = push_answer 2 (frame_at 3 (pos 100) (pos 200)) [] (omega arith) tt

feed_sliding_example : (h : List (NfpFrame ℤ)) × Fed 2 pushed [] (feed pushed (fresh_assembler 2)) h
feed_sliding_example = feed_sliding 2 pushed (omega arith)

-- Two windows of the three frames.
feed_run :
    map frames (feed pushed (fresh_assembler 2)).0
    ≡ (frame_at 3 (pos 100) (pos 200) ∷ frame_at 4 (pos 300) (pos 200) ∷ [])
      ∷ (frame_at 4 (pos 300) (pos 200) ∷ frame_at 6 (pos 300) (pos 200) ∷ [])
      ∷ []
unfolding feed push admit emit append_bounded eq_origin eq_modality eq_topology eq_text contains
    make_window strip window_name decimal06 check_frames
feed_run = refl
