-- ===== src/Patterns/Similarity.antt =====
-- clc/patterns/similarity.py: resemblance of frames and of windows, over an abstract `float`.
pub mod Laws
use rnde_m.Prelude.{
  ℕ, String, Bool, true, false, not, Option, none, some, List, [], ◌∷◌, ◌==◌, if◌then◌else◌, length,
}
use rnde_m.Prelude.Floats.{Floats, clamp}
use rnde_m.Patterns.Model.{NfpFrame, eq_modality, eq_topology, size}
use rnde_m.Patterns.Window.{NfpWindow, frames, modality, topology, frame_count}

pub record NfpSimilarityResult (V : Type 0) : Type 0 where
  pub comparable : Bool
  pub score : Option V
  pub reason : Option String

module _ {V : Type 0} where
  abbrev pub incomparable : String → NfpSimilarityResult V
  incomparable why = record { comparable = false; score = none; reason = some why }

  abbrev pub scored : V → NfpSimilarityResult V
  scored s = record { comparable = true; score = some s; reason = none }

  -- `any(score is None for score in frame_scores)`
  unfoldable pub any_missing : List (Option V) → Bool
  any_missing [] = false
  any_missing (none ∷ scores) = true
  any_missing (some s ∷ scores) = any_missing scores

module _ (F : Floats) where
  open F use {Float, one_f, sub_f, div_f, abs_f, sum_f, from_int}

  -- `abs(l - r) for l, r in zip(left, right)`
  unfoldable pub differences : List Float → List Float → List Float
  differences [] rs = []
  differences (l ∷ ls) [] = []
  differences (l ∷ ls) (r ∷ rs) = abs_f (sub_f l r) ∷ differences ls rs

  -- The sum of these.
  unfoldable pub total_difference : List Float → List Float → Float
  unfolding differences
  total_difference ls rs = sum_f (differences ls rs)

  -- `NFPFrameSimilarity.compare`
  unfoldable pub compare_frames : NfpFrame Float → NfpFrame Float → NfpSimilarityResult Float
  compare_frames left right =
      if not (eq_modality left.modality right.modality)
      then incomparable "different_modality"
      else if not (eq_topology left.topology right.topology)
      then incomparable "different_topology"
      else let distance = total_difference left.values right.values in
        scored (clamp F (sub_f one_f (div_f distance (from_int (size left.topology)))))

  unfoldable pub frame_scores : List (NfpFrame Float) → List (NfpFrame Float) → List (Option Float)
  frame_scores [] rs = []
  frame_scores (l ∷ ls) [] = []
  frame_scores (l ∷ ls) (r ∷ rs) = (compare_frames l r).score ∷ frame_scores ls rs

  -- `score for score in frame_scores if score is not None`
  unfoldable pub present : List (Option Float) → List Float
  present [] = []
  present (none ∷ scores) = present scores
  present (some s ∷ scores) = s ∷ present scores

  -- The sum of these.
  unfoldable pub sum_scores : List (Option Float) → Float
  unfolding present
  sum_scores scores = sum_f (present scores)

  -- `NFPWindowSimilarity.compare`
  unfoldable pub compare_windows : NfpWindow Float → NfpWindow Float → NfpSimilarityResult Float
  compare_windows left right =
      if not (eq_modality (modality left) (modality right))
      then incomparable "different_modality"
      else if not (eq_topology (topology left) (topology right))
      then incomparable "different_topology"
      else if not (frame_count left == frame_count right)
      then incomparable "different_frame_count"
      else let scores = frame_scores (frames left) (frames right) in
        if any_missing scores
        then incomparable "frame_not_comparable"
        else scored (clamp F (div_f (sum_scores scores) (from_int (frame_count left))))
