-- ===== src/Patterns/Window/Laws.antt =====
-- What `NFPWindow.__post_init__` accepts, stated without its loop.
use rnde_m.Prelude.{
  ℕ, ◌<◌, ◌≤◌, ◌+◌, ◌≡◌, ◌≢◌, ◌↔◌, refl, sym, ap, subst, true, false, Option, none, some, List, [],
  ◌∷◌, arith, ok, accepts, All, All-map, All-zip, Pairwise, Text, eq_text_iff, strip, is_blank,
  length, last_of,
}
use rnde_m.Patterns.Model.{
  PatternModality, PatternTopology, NfpFrame, eq_modality_iff, eq_topology, contains,
}
use rnde_m.Patterns.Window.{
  not_after, NfpWindow, check_frames, make_window, frames, start_tick, end_tick,
}

pub eq_topology_iff : (a b : PatternTopology) → (eq_topology a b ≡ true) ↔ (a ≡ b)
unfolding eq_topology
eq_topology_iff a b = ground (arith, eq_text_iff a.shape b.shape)

module _ {V : Type 0} where
  -- Two frames of one window: the later one has the later tick and another id.
  pub record Precedes (f g : NfpFrame V) : Type 0 where
    pub earlier : f.active_tick < g.active_tick
    pub other_id : f.frame_id ≢ g.frame_id

  -- A frame that shares the window's modality and topology.
  pub record Shares (m : PatternModality) (t : PatternTopology) (f : NfpFrame V) : Type 0 where
    pub same_modality : f.modality ≡ m
    pub same_topology : f.topology ≡ t

  abbrev pub IsWindow : List (NfpFrame V) → Type 0
  IsWindow [] = ⊥
  IsWindow (f ∷ fs) = All (Shares f.modality f.topology) fs × Pairwise Precedes (f ∷ fs)

  abbrev After : Option ℕ → NfpFrame V → Type 0
  After none f = Unit
  After (some tick) f = tick < f.active_tick

  abbrev IsNew : List Text → NfpFrame V → Type 0
  IsNew [] f = Unit
  IsNew (s ∷ seen) f = (s ≢ f.frame_id) × IsNew seen f

  contains_iff :
      (seen : List Text) (f : NfpFrame V) → (contains seen f.frame_id ≡ false) ↔ IsNew seen f
  unfolding contains
  contains_iff [] f = ground arith
  contains_iff (s ∷ seen) f = ground (arith, eq_text_iff s f.frame_id, contains_iff seen f)

  not_after_iff :
      (previous : Option ℕ) (f : NfpFrame V)
      → (not_after previous f.active_tick ≡ false) ↔ After previous f
  not_after_iff none f = ground arith
  not_after_iff (some tick) f = ground arith

  After-trans :
      (previous : Option ℕ) (f g : NfpFrame V)
      → After previous f
      → f.active_tick < g.active_tick
      → After previous g
  After-trans none f g h k = tt
  After-trans (some tick) f g h k = omega arith

  -- What the loop has checked of the frames that are left.
  record Checks (m : PatternModality) (t : PatternTopology) (seen : List Text) (previous : Option ℕ)
      (fs : List (NfpFrame V)) : Type 0 where
    sharing : All (Shares m t) fs
    ordered : Pairwise Precedes fs
    beyond : All (λ f. After previous f × IsNew seen f) fs

  module _ (m : PatternModality) (t : PatternTopology) where
    -- One round of the loop passes exactly when its four tests do.
    round_iff :
        (seen : List Text) (previous : Option ℕ) (f : NfpFrame V) (fs : List (NfpFrame V))
        → (accepts (check_frames m t seen previous (f ∷ fs)) ≡ true) ↔ (
            Shares m t f
            × After previous f
            × IsNew seen f
            × (accepts (check_frames m t (f.frame_id ∷ seen) (some f.active_tick) fs) ≡ true))
    unfolding check_frames
    round_iff seen previous f fs = ground (
      arith,
      eq_modality_iff f.modality m,
      eq_topology_iff f.topology t,
      not_after_iff previous f,
      contains_iff seen f,
    )

    check_frames_sound :
        (seen : List Text) (previous : Option ℕ) (fs : List (NfpFrame V))
        → accepts (check_frames m t seen previous fs) ≡ true
        → Checks m t seen previous fs
    check_frames_sound seen previous [] h = record { sharing = tt; ordered = tt; beyond = tt }
    check_frames_sound seen previous (f ∷ fs) h =
        let here = (round_iff seen previous f fs).0 h in
        let later = check_frames_sound (f.frame_id ∷ seen) (some f.active_tick) fs here.3 in
        record {
          sharing = (here.0, later.sharing);
          ordered = (
            All-map (λ g p. record { earlier = p.0; other_id = p.1.0 }) fs later.beyond,
            later.ordered,
          );
          beyond = (
            (here.1, here.2),
            All-map (λ g p. (After-trans previous f g here.1 p.0, p.1.1)) fs later.beyond,
          );
        }

    check_frames_complete :
        (seen : List Text) (previous : Option ℕ) (fs : List (NfpFrame V))
        → Checks m t seen previous fs
        → accepts (check_frames m t seen previous fs) ≡ true
    unfolding check_frames
    check_frames_complete seen previous [] c = refl
    check_frames_complete seen previous (f ∷ fs) c = (round_iff seen previous f fs).1 (
      c.sharing.0,
      c.beyond.0.0,
      c.beyond.0.1,
      check_frames_complete (f.frame_id ∷ seen) (some f.active_tick) fs (record {
        sharing = c.sharing.1;
        ordered = c.ordered.1;
        beyond = All-zip (λ g p q. (p.earlier, (p.other_id, q.1))) fs c.ordered.0 c.beyond.1;
      }),
    )

  IsWindow-Checks :
      (f : NfpFrame V) (fs : List (NfpFrame V))
      → IsWindow (f ∷ fs)
      → Checks f.modality f.topology [] none (f ∷ fs)
  IsWindow-Checks f fs h = record {
    sharing = (record { same_modality = refl; same_topology = refl }, h.0);
    ordered = h.1;
    beyond = ((tt, tt), All-map (λ g p. (tt, tt)) fs h.0);
  }

  -- The constructor passes when the id and the loop do.
  both_iff :
      (id : Text) (f : NfpFrame V) (fs : List (NfpFrame V)) (provenance debug : Option Text)
      → (accepts (make_window id (f ∷ fs) provenance debug) ≡ true) ↔ (
          (is_blank id ≡ false)
          × (accepts (check_frames f.modality f.topology [] none (f ∷ fs)) ≡ true))
  unfolding make_window
  both_iff id f fs provenance debug = ground arith

  make_window-fields :
      (id : Text) (fs : List (NfpFrame V)) (provenance debug : Option Text) (w : NfpWindow V)
      → make_window id fs provenance debug ≡ ok w
      → (frames w ≡ fs) × (w.window_id ≡ strip id)
  unfolding make_window
  make_window-fields id [] provenance debug w e = ground arith
  make_window-fields id (f ∷ fs) provenance debug w e = ground arith

  -- Ticks that grow strictly have room for every frame between the first and the last.
  span :
      (f : NfpFrame V) (fs : List (NfpFrame V))
      → Pairwise Precedes (f ∷ fs)
      → f.active_tick + length fs ≤ (last_of f fs).active_tick
  span f [] h = omega arith
  span f (g ∷ fs) h = omega (arith, span g fs h.1, h.0.0.earlier)

  -- The constructor of a window accepts frames exactly when the id is not blank, there is a first
  -- frame, the frames share its modality and topology, their ticks grow strictly from each frame to
  -- every later one, and no two have one id.
  pub make_window-accepts_iff :
      (id : Text) (fs : List (NfpFrame V)) (provenance debug : Option Text)
      → (accepts (make_window id fs provenance debug) ≡ true)
        ↔ ((is_blank id ≡ false) × IsWindow fs)
  unfolding make_window
  make_window-accepts_iff id [] provenance debug = ground arith
  make_window-accepts_iff id (f ∷ fs) provenance debug = (
    λ h.
        let parts = (both_iff id f fs provenance debug).0 h in
        let checks = check_frames_sound f.modality f.topology [] none (f ∷ fs) parts.1 in
        (parts.0, (checks.sharing.1, checks.ordered)),
    λ h. (both_iff id f fs provenance debug).1 (
      h.0,
      check_frames_complete f.modality f.topology [] none (f ∷ fs) (IsWindow-Checks f fs h.1),
    ),
  )

  -- A window that the constructor returns holds the given frames, which form a window.
  pub make_window-IsWindow :
      (id : Text) (fs : List (NfpFrame V)) (provenance debug : Option Text) (w : NfpWindow V)
      → make_window id fs provenance debug ≡ ok w
      → (frames w ≡ fs) × (w.window_id ≡ strip id) × IsWindow (frames w)
  make_window-IsWindow id fs provenance debug w e =
      let kept = make_window-fields id fs provenance debug w e in
      (
        kept.0,
        kept.1,
        subst IsWindow (sym kept.0)
            ((make_window-accepts_iff id fs provenance debug).0 (ap accepts e)).1,
      )

  -- A window of n frames spans at least n ticks.
  pub window_span :
      (w : NfpWindow V) → IsWindow (frames w) → start_tick w + length w.rest ≤ end_tick w
  window_span w h = span w.first w.rest h.1
