-- ===== src/Actuation/Execution/Coordinator/Progress.antt =====
-- In order, the coordinator executes the action, observes its consequence, and is in order again.
use rnde_m.Prelude.{
  ℕ, ◌+◌, ◌≤◌, ◌≡◌, refl, true, false, some, none, List, [], ◌∷◌, arith, length, All, ok, Text,
  codes, is_blank, strip, eq_text, is_space,
}
use rnde_m.Prelude.Floats.{Floats}
use rnde_m.Prelude.Stages.{go}
use rnde_m.Core.Ids.{IdGenerator, is_in}
use rnde_m.Core.Ids.Laws.{id_name_kept}
use rnde_m.Core.Ids.Fresh.{fresh_id, fresh_id-free}
use rnde_m.Patterns.Model.{
  NfpFrame, make_frame, make_topology, check_values, size, product, clean_ref, eq_modality,
  eq_origin, eq_topology, action, action_generated,
}
use rnde_m.Patterns.Window.Laws.{IsWindow}
use rnde_m.Patterns.Window.{frames, last_frame, NfpWindow, end_tick, topology}
use rnde_m.Context.Manager.Invariant.{IsCoherent}
use rnde_m.Experience.Effects.Laws.{IsUnit, IsActivation}
use rnde_m.Experience.Serialized.{modality_of}
use rnde_m.System.State.{SystemState, is_active}
use rnde_m.System.ActionGuard.{is_native_action_allowed}
use rnde_m.Actuation.Motor.{action_motor_topology}
use rnde_m.Actuation.Motor.Laws.{signal_of, transduce_action_total}
use rnde_m.Actuation.Execution.{
  SelectedExperience, ExecutionRequest, ActionIntent, World, occurrence_frame, materialize,
  make_intent,
}
use rnde_m.Actuation.Execution.Response.{Response}
use rnde_m.Actuation.Execution.Observation.{Loop}
use rnde_m.Actuation.Execution.Coordinator.{
  fresh_frame_id, selection_context, require_free_slot, materialize_fresh, prepare,
}

-- The four ids of a selected experience that a fresh frame id must differ from.
abbrev ids_of : {V : Type 0} → SelectedExperience V → List Text
ids_of x = x.source_experience_id ∷ x.activation_id ∷ x.retrieval_candidate_id ∷ x.selection_id ∷ []

module _ (F : Floats) where
  open F use {Float}

  -- The action of the selected experience fits the motor, and the ids are there.
  pub record IsExecutable (x : SelectedExperience Float) : Type 0 where
    pub is_action : x.action.modality ≡ codes "action"
    pub for_motor : x.action.topology ≡ 2 ∷ []
    pub sized : length x.action.values ≡ 2
    pub in_unit : All (IsUnit F) x.action.values
    pub has_source : is_blank x.source_experience_id ≡ false
    pub has_activation : is_blank x.activation_id ≡ false
    pub has_selection : is_blank x.selection_id ≡ false

  -- The frame that the remembered action becomes.
  abbrev pub occurrence : SelectedExperience Float → ℕ → Text → NfpFrame Float
  occurrence x tick id = record {
    frame_id = id;
    modality = action;
    origin = action_generated;
    topology = action_motor_topology;
    values = x.action.values;
    active_tick = tick;
    provenance_ref = none;
    debug_name = none;
  }

  check_values-units : (vs : List Float) → All (IsUnit F) vs → check_values F vs ≡ ok tt
  unfolding check_values
  check_values-units [] h = refl
  check_values-units (v ∷ vs) h =
      rw (h.0.finite, h.0.not_below, h.0.not_above) (check_values-units vs h.1)

  occurrence_frame_total :
      (x : SelectedExperience Float) (tick : ℕ) (id : Text)
      → IsExecutable x
      → is_blank id ≡ false
      → strip id ≡ id
      → occurrence_frame F x tick id ≡ ok (occurrence x tick id)
  unfolding occurrence_frame modality_of make_topology make_frame eq_text size product clean_ref
  occurrence_frame_total x tick id h named kept =
      rw
        (
          h.is_action,
          h.for_motor,
          named,
          h.sized,
          check_values-units x.action.values h.in_unit,
          kept,
        )
        refl

  -- Under a fresh id the remembered action is materialized.
  materialize_total :
      (request : ExecutionRequest Float) (t : ℕ) (id : Text) (before : NfpWindow Float)
      → IsExecutable request.selected
      → request.selection_context_end_tick ≡ t
      → end_tick before ≡ t
      → is_blank id ≡ false
      → strip id ≡ id
      → is_in (ids_of request.selected) id ≡ false
      → (intent : ActionIntent Float) × (materialize F request t id before ≡ ok intent)
        × (intent.action_frame ≡ occurrence request.selected t id)
  unfolding materialize make_intent eq_modality eq_origin
  materialize_total request t id before h at ends named kept free = (
    record {
      action_frame = occurrence request.selected t id;
      source_experience_id = request.selected.source_experience_id;
      source_activation_id = request.selected.activation_id;
      selection_id = request.selected.selection_id;
      predicted_effect = request.selected.effect;
      selection_context_end_tick = request.selection_context_end_tick;
      before_context = before;
      target_core = request.selected.target_core;
    },
    ground (
      arith,
      occurrence_frame_total request.selected t id h named kept,
      h.has_source,
      h.has_activation,
      h.has_selection,
    ),
    refl,
  )

  module _ (W : World Float) (R : Response F W) (digest : Text → Text) where
    -- The manager is coherent and idle, it sees a window that ends now, and the world is in order at
    -- this tick with a field of the window's shape.
    pub record IsReady (s : Loop F W) (t : ℕ) (w : NfpWindow Float) : Type 0 where
      pub coherent : IsCoherent s.manager
      pub idle : s.manager.pending_causal_transition ≡ none
      pub sees : s.manager.current_external_sensory_window ≡ some w
      pub ends : end_tick w ≡ t
      pub not_late : s.manager.nfp_current_tick ≤ t
      pub framed : IsWindow (frames w)
      pub activated : IsActivation F (last_frame w)
      pub world_ready : R.IsReady s.world t (topology w)

    -- A request for an executable experience, made at this tick, while the mode is active.
    pub record IsTimely (request : ExecutionRequest Float) (system : SystemState) (t : ℕ)
        : Type 0 where
      pub executable : IsExecutable request.selected
      pub now : request.selection_context_end_tick ≡ t
      pub mode_active : is_active system.mode ≡ true

    selection_context_ready :
        (request : ExecutionRequest Float) (system : SystemState) (s : Loop F W) (t : ℕ)
        (w : NfpWindow Float)
        → IsReady s t w
        → IsTimely request system t
        → selection_context F W digest request s ≡ (go w, s)
    unfolding selection_context
    selection_context_ready request system s t w h k =
        ground (arith, R.tells_tick s.world t (topology w) h.world_ready)

    materialize_fresh_ready :
        (request : ExecutionRequest Float) (system : SystemState) (s : Loop F W) (t : ℕ)
        (w : NfpWindow Float)
        → IsReady s t w
        → IsTimely request system t
        → (intent : ActionIntent Float) × (id : Text) × (materialize_fresh F W digest request w s
            ≡ (go intent, record s { ids = (fresh_frame_id request.selected s.ids).1 }))
          × (intent.action_frame ≡ occurrence request.selected t id)
    unfolding materialize_fresh fresh_frame_id is_space
    materialize_fresh_ready request system s t w h k =
        let (free, (n, numbered)) =
          fresh_id-free (codes "remembered_action_frame") (ids_of request.selected) s.ids in
        let id = (fresh_id (codes "remembered_action_frame") (ids_of request.selected) s.ids).0 in
        let (named, kept) = id_name_kept (codes "remembered_action_frame") n refl in
        let (intent, made, framed) =
          materialize_total request t id w k.executable k.now h.ends (rw numbered named)
            (rw numbered kept) free in
        (intent, id, ground (arith, made), framed)

    -- The signal is prepared; the manager, the world and the memory are not touched.
    pub prepare_ready :
        (request : ExecutionRequest Float) (system : SystemState) (s : Loop F W) (t : ℕ)
        (w : NfpWindow Float)
        → IsReady s t w
        → IsTimely request system t
        → (id : Text) × (ids : IdGenerator) × (prepare F W digest request system s ≡ (
          go (record {
            before = w;
            frame = occurrence request.selected t id;
            signal = signal_of F digest (occurrence request.selected t id) s.next_signal_id;
          }),
          record s { ids = ids; next_signal_id = s.next_signal_id + 1 },
        ))
    unfolding prepare require_free_slot is_native_action_allowed eq_topology eq_text size
    prepare_ready request system s t w h k =
        let (intent, id, fresh, framed) = materialize_fresh_ready request system s t w h k in
        let frame = occurrence request.selected t id in
        let signalled =
          transduce_action_total F digest frame s.next_signal_id
            (record { is_action = refl; generated = refl }) refl
            (record { sized = k.executable.sized; in_unit = k.executable.in_unit }) in
        (
          id,
          (fresh_frame_id request.selected s.ids).1,
          ground
              (arith, selection_context_ready request system s t w h k, fresh, framed, signalled),
        )
