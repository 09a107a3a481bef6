-- ===== src/Transduction/Windowing/Outcomes.antt =====
-- What one `push` does, as a function of the series that was accepted before.
use rnde_m.Prelude.{
  ℕ, suc, ◌+◌, ◌-◌, ◌≤◌, ◌<◌, ◌≡◌, ◌⊎◌, inl, inr, refl, sym, subst, ◌∙◌, Bool, true, false, Option,
  none, some, List, [], ◌∷◌, ◌++◌, not, ◌&&◌, arith, ltb, length, length-drop, take_last,
  if◌then◌else◌, Bool-cases, Result-cases, Error, value_error, Result, ok, raised, codes, strip,
  is_blank, is_space, visible-blank,
}
use rnde_m.Prelude.Decimal.{decimal06}
use rnde_m.Patterns.Model.{
  NfpFrame, external_sensory, eq_modality, eq_topology, eq_origin, eq_modality_iff, eq_origin_iff,
  contains, clean_ref,
}
use rnde_m.Patterns.Window.{NfpWindow, make_window}
use rnde_m.Patterns.Window.Laws.{IsWindow, eq_topology_iff, make_window-accepts_iff}
use rnde_m.Transduction.Windowing.{
  NfpWindowAssembler, window_name, append_bounded, admit, emit, push,
}
use rnde_m.Transduction.Windowing.Sliding.{append_bounded-take_last}
use rnde_m.Transduction.Windowing.Series.{
  in_order, length-in_order, Fits, IsSeries, state_of, frame_ids, IsSeries-IsWindow, contains-new,
  new-contains, newest-Fits,
}

window_name_visible : (k : ℕ) → is_blank (window_name k) ≡ false
unfolding window_name is_space
window_name_visible k = visible-blank 110 (codes "fp_window:" ++ decimal06 k) refl

module _ {V : Type 0} where
  -- A window under a number, of frames that are some.
  abbrev pub window_of : ℕ → List (NfpFrame V) → Option (NfpWindow V)
  window_of k [] = none
  window_of k (f ∷ fs) = some (record {
    window_id = strip (window_name k);
    first = f;
    rest = fs;
    provenance_ref = none;
    debug_name = none;
  })

  -- The answer to the frame that made a series: the window of its last `n` frames, if it has so many.
  abbrev pub output : ℕ → List (NfpFrame V) → Option (NfpWindow V)
  output n h =
      if ltb (length h) n then none else window_of (suc (length h) - n) (take_last n (in_order h))

  window_made :
      (k : ℕ) (fs : List (NfpFrame V))
      → IsWindow fs
      → (w : NfpWindow V) × (make_window (window_name k) fs none none ≡ ok w)
        × (window_of k fs ≡ some w)
  unfolding make_window clean_ref
  window_made k [] h = absurd h
  window_made k (f ∷ fs) h = (
    record {
      window_id = strip (window_name k);
      first = f;
      rest = fs;
      provenance_ref = none;
      debug_name = none;
    },
    ground (
      arith,
      (make_window-accepts_iff (window_name k) (f ∷ fs) none none).1 (window_name_visible k, h),
    ),
    refl,
  )

  abbrev opened : NfpFrame V → NfpWindowAssembler V → NfpWindowAssembler V
  opened f s = record s { modality = some f.modality; topology = some f.topology }

  abbrev taken_in : NfpFrame V → List (NfpFrame V) → NfpWindowAssembler V → NfpWindowAssembler V
  taken_in f fs s = record s {
    frames = fs;
    seen_frame_ids = f.frame_id ∷ s.seen_frame_ids;
    last_tick = some f.active_tick;
  }

  emit_few :
      (f : NfpFrame V) (s : NfpWindowAssembler V) (fs : List (NfpFrame V))
      → append_bounded s.window_size s.frames f ≡ fs
      → length fs < s.window_size
      → emit f s ≡ (ok none, taken_in f fs s)
  unfolding emit
  emit_few f s fs e few = ground arith

  emit_enough :
      (f : NfpFrame V) (s : NfpWindowAssembler V) (fs : List (NfpFrame V)) (w : NfpWindow V)
      → append_bounded s.window_size s.frames f ≡ fs
      → s.window_size ≤ length fs
      → make_window (window_name s.next_window_id) fs none none ≡ ok w
      → emit f s ≡ (ok (some w), record (taken_in f fs s) { next_window_id = s.next_window_id + 1 })
  unfolding emit
  emit_enough f s fs w e enough made = ground arith

  pub length_of_last :
      (n : ℕ) (h : List (NfpFrame V))
      → length (take_last n (in_order h)) ≡ length h - (length h - n)
  unfolding take_last
  length_of_last n h =
      omega (arith, length-drop (length (in_order h) - n) (in_order h), length-in_order h)

  -- After a frame that fits, the state is that of the longer series.
  emit_series :
      (n : ℕ) (f : NfpFrame V) (h : List (NfpFrame V))
      → 0 < n
      → IsSeries (f ∷ h)
      → emit f (opened f (state_of n h)) ≡ (ok (output n (f ∷ h)), state_of n (f ∷ h))
  unfolding in_order
  emit_series n f h p s =
      let fs = take_last n (in_order (f ∷ h)) in
      let sized = length_of_last n (f ∷ h) in
      let kept = append_bounded-take_last n (in_order h) f p in
      elim (Bool-cases (ltb (suc (length h)) n)) [
        | inl few ↦
            let short : length fs < n = ground (arith, sized) in
            let number : suc (suc (length h)) - n ≡ suc (length h) - n = ground arith in
            emit_few f (opened f (state_of n h)) fs kept short ∙ rw (few, number) refl
        | inr enough ↦
            let (w, made, same) =
              window_made (suc (suc (length h) - n)) fs (IsSeries-IsWindow n f h p s) in
            let number : suc (suc (length h)) - n ≡ suc (suc (length h) - n) = ground arith in
            let next : suc (suc (length h) - n) + 1 ≡ suc (suc (suc (length h) - n)) =
              omega arith in
            let full : n ≤ length fs = ground (arith, sized) in
            emit_enough f (opened f (state_of n h)) fs w kept full made
            ∙ rw (enough, number, same, next) refl
      ]

  -- The tests that the guards make after a first frame.
  abbrev guards : NfpFrame V → NfpFrame V → List (NfpFrame V) → Bool
  guards f g h =
      eq_origin f.origin external_sensory
      && (eq_modality f.modality g.modality
          && (eq_topology f.topology g.topology
              && (not (contains (frame_ids (g ∷ h)) f.frame_id)
                  && ltb g.active_tick f.active_tick)))

  guards-Fits :
      (f g : NfpFrame V) (h : List (NfpFrame V))
      → IsSeries (g ∷ h)
      → guards f g h ≡ true
      → Fits f (g ∷ h)
  guards-Fits f g h s e =
      newest-Fits f g h s (ground (arith, eq_origin_iff f.origin external_sensory))
        (ground (arith, eq_modality_iff f.modality g.modality))
        (ground (arith, eq_topology_iff f.topology g.topology)) (ground arith)
        (contains-new f (g ∷ h) (ground arith))

  Fits-guards : (f g : NfpFrame V) (h : List (NfpFrame V)) → Fits f (g ∷ h) → guards f g h ≡ true
  Fits-guards f g h k = ground (
    arith,
    (eq_origin_iff f.origin external_sensory).1 k.external,
    (eq_modality_iff f.modality g.modality).1 (sym k.sharing.0.same_modality),
    (eq_topology_iff f.topology g.topology).1 (sym k.sharing.0.same_topology),
    new-contains f (g ∷ h) k.newest,
    k.newest.0.earlier,
  )

  admit_passes :
      (n : ℕ) (f g : NfpFrame V) (h : List (NfpFrame V))
      → guards f g h ≡ true
      → admit f (state_of n (g ∷ h)) ≡ (ok tt, opened f (state_of n (g ∷ h)))
  unfolding admit
  admit_passes n f g h e =
      ground (arith, eq_modality_iff f.modality g.modality, eq_topology_iff f.topology g.topology)

  admit_refuses :
      (n : ℕ) (f g : NfpFrame V) (h : List (NfpFrame V))
      → guards f g h ≡ false
      → (e : Error) × (admit f (state_of n (g ∷ h)) ≡ (raised e, state_of n (g ∷ h)))
  unfolding admit
  admit_refuses n f g h e = elim (Result-cases (admit f (state_of n (g ∷ h))).0) [
    | inl (x, refused) ↦ (x, ground arith)
    | inr (u, passed) ↦ absurd (ground arith)
  ]

  admit_cases :
      (n : ℕ) (f : NfpFrame V) (h : List (NfpFrame V))
      → IsSeries h
      → (Fits f h × (admit f (state_of n h) ≡ (ok tt, opened f (state_of n h))))
        ⊎ ((e : Error) × (¬ Fits f h) × (admit f (state_of n h) ≡ (raised e, state_of n h)))
  unfolding admit contains
  admit_cases n f [] s = elim (Bool-cases (eq_origin f.origin external_sensory)) [
    | inl sensed ↦ inl (
      record {
        external = (eq_origin_iff f.origin external_sensory).0 sensed;
        sharing = tt;
        newest = tt;
      },
      ground (
        arith,
        (eq_modality_iff f.modality f.modality).1 refl,
        (eq_topology_iff f.topology f.topology).1 refl,
      ),
    )
    | inr foreign ↦ inr (
      value_error "sensory windows accept EXTERNAL_SENSORY frames only",
      (λ fits. ground (arith, (eq_origin_iff f.origin external_sensory).1 fits.external)),
      ground arith,
    )
  ]
  admit_cases n f (g ∷ h) s = elim (Bool-cases (guards f g h)) [
    | inl pass ↦ inl (guards-Fits f g h s pass, admit_passes n f g h pass)
    | inr fail ↦
        let (e, refused) = admit_refuses n f g h fail in
        inr (e, (λ k. cc (fail, Fits-guards f g h k)), refused)
  ]

  push_passed :
      (f : NfpFrame V) (s s' : NfpWindowAssembler V)
      (r : Result (Option (NfpWindow V)) × NfpWindowAssembler V)
      → admit f s ≡ (ok tt, s')
      → emit f s' ≡ r
      → push f s ≡ r
  unfolding push
  push_passed f s s' r a e = ground arith

  push_stopped :
      (f : NfpFrame V) (s s' : NfpWindowAssembler V) (e : Error)
      → admit f s ≡ (raised e, s')
      → push f s ≡ (raised e, s')
  unfolding push
  push_stopped f s s' e a = ground arith

  -- The two answers to a frame, by the series that was accepted before.
  pub data Answer (n : ℕ) (f : NfpFrame V) (h : List (NfpFrame V))
      : Result (Option (NfpWindow V)) × NfpWindowAssembler V → Type 0 where
    fitting : Fits f h → Answer n f h (ok (output n (f ∷ h)), state_of n (f ∷ h))
    refused : ¬ Fits f h → (e : Error) → Answer n f h (raised e, state_of n h)

  -- With windows of at least one frame, after a series of accepted frames: a frame that comes from
  -- the sensors, shares modality and topology with all frames before it, and is later than and named
  -- unlike each of them, is accepted, and the answer is the window of the last frames, under the next
  -- number, as soon as there are enough; making that window never raises. Any other frame raises and
  -- leaves the state as it was.
  pub push_answer :
      (n : ℕ) (f : NfpFrame V) (h : List (NfpFrame V))
      → 0 < n
      → IsSeries h
      → Answer n f h (push f (state_of n h))
  push_answer n f h p s = elim (admit_cases n f h s) [
    | inl (k, passed) ↦
        subst (Answer n f h)
          (sym (
            push_passed f (state_of n h) (opened f (state_of n h))
              (ok (output n (f ∷ h)), state_of n (f ∷ h)) passed (emit_series n f h p (k, s))))
          (fitting k)
    | inr (e, k, stopped) ↦
        subst (Answer n f h) (sym (push_stopped f (state_of n h) (state_of n h) e stopped))
          (refused k e)
  ]
