-- ===== src/Patterns/Similarity/Laws.antt =====
-- Resemblance is symmetric and normalised, and on windows it fails only for three reasons.
use rnde_m.Prelude.{
  ◌≡◌, ◌↔◌, refl, sym, ap, subst, ◌∙◌, true, false, some, List, [], ◌∷◌, arith, All,
}
use rnde_m.Prelude.Floats.{Floats, clamp, clamp_bounds}
use rnde_m.Patterns.Model.{
  PatternModality, PatternTopology, NfpFrame, eq_modality, eq_modality_iff, eq_topology, size,
}
use rnde_m.Patterns.Window.{NfpWindow, frames, modality, topology, frame_count}
use rnde_m.Patterns.Window.Laws.{IsWindow, Shares, eq_topology_iff}
use rnde_m.Patterns.Similarity.{
  differences, total_difference, compare_frames, frame_scores, any_missing, compare_windows,
  sum_scores,
}

eq_modality_comm : (a b : PatternModality) → eq_modality a b ≡ eq_modality b a
eq_modality_comm a b = ground (arith, eq_modality_iff a b, eq_modality_iff b a)

eq_topology_comm : (a b : PatternTopology) → eq_topology a b ≡ eq_topology b a
eq_topology_comm a b = ground (arith, eq_topology_iff a b, eq_topology_iff b a)

module _ (F : Floats) where
  open F use {Float, zero_f, one_f, le_f, sub_f, div_f, abs_f, from_int, abs-sub_comm}

  differences_comm : (ls rs : List Float) → differences F ls rs ≡ differences F rs ls
  unfolding differences
  differences_comm [] [] = refl
  differences_comm [] (r ∷ rs) = refl
  differences_comm (l ∷ ls) [] = refl
  differences_comm (l ∷ ls) (r ∷ rs) = cc (abs-sub_comm l r, differences_comm ls rs)

  total_difference_comm : (ls rs : List Float) → total_difference F ls rs ≡ total_difference F rs ls
  unfolding total_difference
  total_difference_comm ls rs = ap (λ ds. F.sum_f ds) (differences_comm ls rs)

  -- Comparing two frames gives the same result in either order.
  pub compare_frames_comm :
      (left right : NfpFrame Float) → compare_frames F left right ≡ compare_frames F right left
  unfolding compare_frames
  compare_frames_comm left right = ground (
    arith,
    eq_modality_comm left.modality right.modality,
    eq_topology_comm left.topology right.topology,
    eq_topology_iff left.topology right.topology,
    total_difference_comm left.values right.values,
  )

  -- Frames that share modality and topology have a score.
  compare_frames-score :
      (left right : NfpFrame Float)
      → left.modality ≡ right.modality
      → left.topology ≡ right.topology
      → (s : Float) × ((compare_frames F left right).score ≡ some s)
  unfolding compare_frames
  compare_frames-score left right m t = (
    clamp F (
        sub_f one_f
          (div_f (total_difference F left.values right.values) (from_int (size left.topology)))),
    ground (
      arith,
      eq_modality_iff left.modality right.modality,
      eq_topology_iff left.topology right.topology,
    ),
  )

  frame_scores_comm : (ls rs : List (NfpFrame Float)) → frame_scores F ls rs ≡ frame_scores F rs ls
  unfolding frame_scores
  frame_scores_comm [] [] = refl
  frame_scores_comm [] (r ∷ rs) = refl
  frame_scores_comm (l ∷ ls) [] = refl
  frame_scores_comm (l ∷ ls) (r ∷ rs) = cc (compare_frames_comm l r, frame_scores_comm ls rs)

  -- Frames of two windows that share modality and topology all have scores.
  frame_scores_complete :
      (m : PatternModality) (t : PatternTopology) (ls rs : List (NfpFrame Float))
      → All (Shares m t) ls
      → All (Shares m t) rs
      → any_missing (frame_scores F ls rs) ≡ false
  unfolding frame_scores any_missing
  frame_scores_complete m t [] rs h k = refl
  frame_scores_complete m t (l ∷ ls) [] h k = refl
  frame_scores_complete m t (l ∷ ls) (r ∷ rs) h k =
      let (s, e) =
        compare_frames-score l r (h.0.same_modality ∙ sym k.0.same_modality)
          (h.0.same_topology ∙ sym k.0.same_topology) in
      rw e (frame_scores_complete m t ls rs h.1 k.1)

  -- Comparing two windows gives the same result in either order.
  compare_windows_comm :
      (left right : NfpWindow Float) → compare_windows F left right ≡ compare_windows F right left
  unfolding compare_windows
  compare_windows_comm left right = ground (
    arith,
    eq_modality_comm (modality left) (modality right),
    eq_topology_comm (topology left) (topology right),
    frame_scores_comm (frames left) (frames right),
  )

  windows_complete :
      (left right : NfpWindow Float)
      → IsWindow (frames left)
      → IsWindow (frames right)
      → modality left ≡ modality right
      → topology left ≡ topology right
      → any_missing (frame_scores F (frames left) (frames right)) ≡ false
  windows_complete left right h k m t =
      frame_scores_complete (modality left) (topology left) (frames left) (frames right)
        (record { same_modality = refl; same_topology = refl }, h.0)
        (
          record { same_modality = sym m; same_topology = sym t },
          subst (λ x. All (Shares x (topology left)) right.rest) (sym m)
              (subst (λ y. All (Shares (modality right) y) right.rest) (sym t) k.0),
        )

  -- Two well-formed windows can be compared exactly when they share modality, topology and the
  -- number of frames; in particular no pair of their frames is incomparable.
  pub compare_windows-comparable_iff :
      (left right : NfpWindow Float)
      → IsWindow (frames left)
      → IsWindow (frames right)
      → ((compare_windows F left right).comparable ≡ true) ↔ (
          (modality left ≡ modality right)
          × (topology left ≡ topology right)
          × (frame_count left ≡ frame_count right))
  unfolding compare_windows
  compare_windows-comparable_iff left right h k = ground (
    arith,
    eq_modality_iff (modality left) (modality right),
    eq_topology_iff (topology left) (topology right),
    windows_complete left right h k,
  )

  -- The score of a comparison of windows lies in the unit interval, whatever the frames hold.
  pub compare_windows_bounds :
      (left right : NfpWindow Float) (s : Float)
      → (compare_windows F left right).score ≡ some s
      → (le_f zero_f s ≡ true) × (le_f s one_f ≡ true)
  unfolding compare_windows
  compare_windows_bounds left right s e = ground (
    arith,
    clamp_bounds F (
        div_f (sum_scores F (frame_scores F (frames left) (frames right)))
          (from_int (frame_count left))),
  )
