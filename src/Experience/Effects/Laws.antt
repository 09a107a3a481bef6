-- ===== src/Experience/Effects/Laws.antt =====
-- Extraction is total on what the program's constructors have accepted.
use rnde_m.Prelude.{
  ℕ, suc, ◌+◌, ◌≡◌, refl, sym, ap, ◌∙◌, true, false, not, ◌||◌, List, [], ◌∷◌, arith, length, any,
  All, All-last_of, ok, Text, codes, is_blank, is_space, visible-blank,
}
use rnde_m.Prelude.Floats.{Floats}
use rnde_m.Patterns.Model.{NfpFrame, eq_modality_iff, size}
use rnde_m.Patterns.Window.{NfpWindow, frames, last_frame, modality, topology}
use rnde_m.Patterns.Window.Laws.{IsWindow, Shares, eq_topology_iff}
use rnde_m.Context.Causal.{RecentCausalTransition}
use rnde_m.Context.Causality.{IsExternal, IsAction, validate_external_sensory_window_iff}
use rnde_m.Experience.Effects.{
  ObservedEffect, make_effect, deltas, opaque_id, effect_between, extract,
}

-- A tag that begins with no space makes an id that is not blank.
pub opaque_id-blank :
    (digest : Text → Text) (c : ℕ) (tag : Text) (parts : List Text)
    → is_space c ≡ false
    → is_blank (opaque_id digest (c ∷ tag) parts) ≡ false
unfolding opaque_id
opaque_id-blank digest c tag parts h = visible-blank c _ h

module _ {V : Type 0} where
  -- What the constructor of a recent transition checks, and the shape of its windows.
  pub record IsObserved (t : RecentCausalTransition V) : Type 0 where
    pub named : is_blank t.transition_id ≡ false
    pub before_external : IsExternal t.before_sensory_window
    pub after_external : IsExternal t.after_sensory_window
    pub before_window : IsWindow (frames t.before_sensory_window)
    pub after_window : IsWindow (frames t.after_sensory_window)
    pub action_valid : IsAction t.action_frame
    pub at_action : t.action_frame.active_tick ≡ t.action_tick
    pub next_tick : t.observation_tick ≡ t.action_tick + 1
    pub same_topology : topology t.before_sensory_window ≡ topology t.after_sensory_window

  -- The last frame shares the window's modality and topology.
  pub last_frame-Shares :
      (w : NfpWindow V) → IsWindow (frames w) → Shares (modality w) (topology w) (last_frame w)
  last_frame-Shares w h =
      All-last_of (Shares (modality w) (topology w)) w.first w.rest
        (record { same_modality = refl; same_topology = refl }) h.0

module _ (F : Floats) where
  open F use {Float, zero_f, one_f, neg_one_f, lt_f, is_finite, sub_f, sub_unit}

  -- An activation as `NFPFrame.__post_init__` accepts it.
  pub record IsUnit (v : Float) : Type 0 where
    pub finite : is_finite v ≡ true
    pub not_below : lt_f v zero_f ≡ false
    pub not_above : lt_f one_f v ≡ false

  pub record IsActivation (f : NfpFrame Float) : Type 0 where
    pub sized : length f.values ≡ size f.topology
    pub in_unit : All IsUnit f.values

  length-deltas :
      (bs later : List Float) → length bs ≡ length later → length (deltas F bs later) ≡ length bs
  unfolding deltas
  length-deltas [] later h = refl
  length-deltas (b ∷ bs) [] h = absurd (omega arith)
  length-deltas (b ∷ bs) (a ∷ later) h = ap suc (length-deltas bs later (omega arith))

  finite-deltas :
      (bs later : List Float)
      → All IsUnit bs
      → All IsUnit later
      → any (λ (v : Float). not (is_finite v)) (deltas F bs later) ≡ false
  unfolding deltas
  finite-deltas [] later h k = refl
  finite-deltas (b ∷ bs) [] h k = refl
  finite-deltas (b ∷ bs) (a ∷ later) h k =
      let unit =
        sub_unit a b k.0.finite h.0.finite k.0.not_below k.0.not_above h.0.not_below
          h.0.not_above in
      rw unit.0 (finite-deltas bs later h.1 k.1)

  signed-deltas :
      (bs later : List Float)
      → All IsUnit bs
      → All IsUnit later
      → any (λ (v : Float). lt_f v neg_one_f || lt_f one_f v) (deltas F bs later) ≡ false
  unfolding deltas
  signed-deltas [] later h k = refl
  signed-deltas (b ∷ bs) [] h k = refl
  signed-deltas (b ∷ bs) (a ∷ later) h k =
      let unit =
        sub_unit a b k.0.finite h.0.finite k.0.not_below k.0.not_above h.0.not_below
          h.0.not_above in
      rw (unit.1, unit.2) (signed-deltas bs later h.1 k.1)

  module _ (digest : Text → Text) (t : RecentCausalTransition Float) where
    abbrev pub before_frame : NfpFrame Float
    before_frame = last_frame t.before_sensory_window

    abbrev pub after_frame : NfpFrame Float
    after_frame = last_frame t.after_sensory_window

    abbrev pub effect_of : ObservedEffect Float
    effect_of =
        effect_between F digest t (last_frame t.before_sensory_window)
          (last_frame t.after_sensory_window)

    effect-made :
        IsObserved t
        → IsActivation (last_frame t.before_sensory_window)
        → IsActivation (last_frame t.after_sensory_window)
        → length (last_frame t.before_sensory_window).values
          ≡ length (last_frame t.after_sensory_window).values
        → make_effect F effect_of ≡ ok effect_of
    unfolding make_effect is_space
    effect-made h b a same =
        let before = last_frame t.before_sensory_window in
        let after = last_frame t.after_sensory_window in
        ground (
          arith,
          opaque_id-blank digest 101 (codes "ffect")
              (t.transition_id ∷ before.frame_id ∷ after.frame_id ∷ []) refl,
          opaque_id-blank digest 101 (codes "ndpoint") (before.frame_id ∷ []) refl,
          opaque_id-blank digest 101 (codes "ndpoint") (after.frame_id ∷ []) refl,
          length-deltas before.values after.values same,
          finite-deltas before.values after.values b.in_unit a.in_unit,
          signed-deltas before.values after.values b.in_unit a.in_unit,
        )

    endpoints_agree :
        IsObserved t
        → ((last_frame t.before_sensory_window).modality
            ≡ (last_frame t.after_sensory_window).modality)
          × ((last_frame t.before_sensory_window).topology
              ≡ (last_frame t.after_sensory_window).topology)
    endpoints_agree h =
        let b = last_frame-Shares t.before_sensory_window h.before_window in
        let a = last_frame-Shares t.after_sensory_window h.after_window in
        (
          b.same_modality
              ∙ (h.before_external.is_visual ∙ sym h.after_external.is_visual)
              ∙ sym a.same_modality,
          b.same_topology ∙ h.same_topology ∙ sym a.same_topology,
        )

    -- Of a well-formed recent transition whose two endpoint frames hold activations, extraction does
    -- not raise: it returns the effect whose values are the differences of the endpoints, one for
    -- each cell of the topology.
    pub extract_total :
        IsObserved t
        → IsActivation (last_frame t.before_sensory_window)
        → IsActivation (last_frame t.after_sensory_window)
        → (extract F digest t ≡ ok effect_of)
          × (length effect_of.delta_values ≡ size effect_of.topology)
    unfolding extract
    extract_total h b a =
        let before = last_frame t.before_sensory_window in
        let after = last_frame t.after_sensory_window in
        let (m, p) = endpoints_agree h in
        let same : length before.values ≡ length after.values = b.sized ∙ ap size p ∙ sym a.sized in
        (
          ground (
            arith,
            (validate_external_sensory_window_iff t.before_sensory_window).1 h.before_external,
            (validate_external_sensory_window_iff t.after_sensory_window).1 h.after_external,
            (eq_modality_iff before.modality after.modality).1 m,
            (eq_topology_iff before.topology after.topology).1 p,
            same,
            effect-made h b a same,
          ),
          length-deltas before.values after.values same ∙ b.sized,
        )
