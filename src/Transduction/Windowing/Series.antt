-- ===== src/Transduction/Windowing/Series.antt =====
-- The frames that an assembler has accepted, the newest first, and the state that they leave.
use rnde_m.Prelude.{
  ℕ, suc, ◌-◌, ◌<◌, ◌≡◌, ◌≢◌, refl, sym, ◌∙◌, false, Option, none, some, List, [], ◌∷◌, ◌++◌, arith,
  length, length-append, length-drop, take_last, All, All-append, All-map, All-zip, All-take_last,
  Pairwise, Pairwise-snoc, Pairwise-drop, Text, eq_text_iff,
}
use rnde_m.Patterns.Model.{PatternModality, PatternTopology, NfpFrame, external_sensory, contains}
use rnde_m.Patterns.Window.Laws.{Precedes, Shares, IsWindow}
use rnde_m.Transduction.Windowing.{NfpWindowAssembler}

-- From the newest first to the oldest first.
unfoldable pub in_order {ℓ} : {A : Type ℓ} → List A → List A
in_order [] = []
in_order (x ∷ xs) = in_order xs ++ x ∷ []

pub length-in_order {ℓ} : {A : Type ℓ} (xs : List A) → length (in_order xs) ≡ length xs
unfolding in_order
length-in_order [] = refl
length-in_order (x ∷ xs) = omega (arith, length-append (in_order xs) (x ∷ []), length-in_order xs)

All-in_order : {A : Type 0} (P : A → Type 0) (xs : List A) → All P xs → All P (in_order xs)
unfolding in_order
All-in_order P [] h = tt
All-in_order P (x ∷ xs) h = All-append P (in_order xs) (x ∷ []) (All-in_order P xs h.1) (h.0, tt)

module _ {V : Type 0} where
  -- A frame that comes from the sensors, shares modality and topology with all frames before it, and
  -- has a later tick and another id than each of them.
  pub record Fits (f : NfpFrame V) (older : List (NfpFrame V)) : Type 0 where
    pub external : f.origin ≡ external_sensory
    pub sharing : All (Shares f.modality f.topology) older
    pub newest : All (λ g. Precedes g f) older

  abbrev pub IsSeries : List (NfpFrame V) → Type 0
  IsSeries [] = Unit
  IsSeries (f ∷ older) = Fits f older × IsSeries older

  abbrev newest_modality : List (NfpFrame V) → Option PatternModality
  newest_modality [] = none
  newest_modality (f ∷ older) = some f.modality

  abbrev newest_topology : List (NfpFrame V) → Option PatternTopology
  newest_topology [] = none
  newest_topology (f ∷ older) = some f.topology

  abbrev newest_tick : List (NfpFrame V) → Option ℕ
  newest_tick [] = none
  newest_tick (f ∷ older) = some f.active_tick

  abbrev pub frame_ids : List (NfpFrame V) → List Text
  frame_ids [] = []
  frame_ids (f ∷ older) = f.frame_id ∷ frame_ids older

  -- The state of an assembler of windows of `n` frames that has accepted a series.
  abbrev pub state_of : ℕ → List (NfpFrame V) → NfpWindowAssembler V
  state_of n h = record {
    window_size = n;
    frames = take_last n (in_order h);
    modality = newest_modality h;
    topology = newest_topology h;
    last_tick = newest_tick h;
    seen_frame_ids = frame_ids h;
    next_window_id = suc (suc (length h) - n);
  }

  Pairwise-in_order : (h : List (NfpFrame V)) → IsSeries h → Pairwise Precedes (in_order h)
  unfolding in_order
  Pairwise-in_order [] s = tt
  Pairwise-in_order (f ∷ older) s =
      Pairwise-snoc Precedes (in_order older) f (Pairwise-in_order older s.1)
        (All-in_order (λ g. Precedes g f) older s.0.newest)

  IsWindow-shared :
      (m : PatternModality) (t : PatternTopology) (fs : List (NfpFrame V))
      → 0 < length fs
      → All (Shares m t) fs
      → Pairwise Precedes fs
      → IsWindow fs
  IsWindow-shared m t [] p h o = absurd (omega arith)
  IsWindow-shared m t (f ∷ fs) p h o = (
    All-map
        (λ g k. record {
          same_modality = k.same_modality ∙ sym h.0.same_modality;
          same_topology = k.same_topology ∙ sym h.0.same_topology;
        })
        fs h.1,
    o,
  )

  -- The last frames of a series form a window.
  pub IsSeries-IsWindow :
      (n : ℕ) (f : NfpFrame V) (older : List (NfpFrame V))
      → 0 < n
      → IsSeries (f ∷ older)
      → IsWindow (take_last n (in_order (f ∷ older)))
  unfolding take_last
  IsSeries-IsWindow n f older p s =
      let all = in_order (f ∷ older) in
      let same : Shares f.modality f.topology f = record {
        same_modality = refl;
        same_topology = refl;
      } in
      IsWindow-shared f.modality f.topology (take_last n all)
        (omega (arith, length-drop (length all - n) all, length-in_order (f ∷ older)))
        (All-take_last (Shares f.modality f.topology) n all
          (All-in_order (Shares f.modality f.topology) (f ∷ older) (same, s.0.sharing)))
        (Pairwise-drop Precedes (length all - n) all (Pairwise-in_order (f ∷ older) s))

  -- The set of seen ids is asked about the frames of the series.
  pub contains-new :
      (f : NfpFrame V) (h : List (NfpFrame V))
      → contains (frame_ids h) f.frame_id ≡ false
      → All (λ g. g.frame_id ≢ f.frame_id) h
  unfolding contains
  contains-new f [] e = tt
  contains-new f (g ∷ h) e =
      (λ same. ground (arith, eq_text_iff g.frame_id f.frame_id), contains-new f h (ground arith))

  pub new-contains :
      (f : NfpFrame V) (h : List (NfpFrame V))
      → All (λ g. Precedes g f) h
      → contains (frame_ids h) f.frame_id ≡ false
  unfolding contains
  new-contains f [] a = refl
  new-contains f (g ∷ h) a =
      ground (arith, eq_text_iff g.frame_id f.frame_id, a.0.other_id, new-contains f h a.1)

  -- It is enough to compare a frame with the newest one, but for the ids.
  pub newest-Fits :
      (f g : NfpFrame V) (h : List (NfpFrame V))
      → IsSeries (g ∷ h)
      → f.origin ≡ external_sensory
      → f.modality ≡ g.modality
      → f.topology ≡ g.topology
      → g.active_tick < f.active_tick
      → All (λ k. k.frame_id ≢ f.frame_id) (g ∷ h)
      → Fits f (g ∷ h)
  newest-Fits f g h s external m t later other = record {
    external = external;
    sharing = (
      record { same_modality = sym m; same_topology = sym t },
      All-map
          (λ k p. record {
            same_modality = p.same_modality ∙ sym m;
            same_topology = p.same_topology ∙ sym t;
          })
          h s.0.sharing,
    );
    newest = (
      record { earlier = later; other_id = other.0 },
      All-zip (λ k p o. record { earlier = omega (arith, p.earlier); other_id = o }) h s.0.newest
          other.1,
    );
  }
