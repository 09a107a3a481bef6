-- ===== src/Examples/Execution.antt =====
-- Examples for clc/actuation/remembered_action_execution.py, clc/core/ids.py and the synthetic world.
use rnde_m.Prelude.{
  ◌⊎◌, ℕ, ◌≡◌, ◌≢◌, refl, true, none, some, List, [], ◌∷◌, ok, pos, negsuc, ℤ, Text, codes, arith,
  length, strip, is_space, All, ap,
}
use rnde_m.Core.Ids.{search_id}
use rnde_m.Core.Ids.Fresh.{search_id-total}
use rnde_m.Patterns.Model.{size, product, NfpFrame, visual, external_sensory}
use rnde_m.Patterns.Window.{NfpWindow}
use rnde_m.Context.Manager.{initial}
use rnde_m.Context.ShortMemory.{fresh_memory}
use rnde_m.Experience.Serialized.{SerializedObservedEffectV1, FeedbackTargetCore}
use rnde_m.System.State.{SystemState, active}
use rnde_m.Scenarios.World.{VisualWorld, visual_world, snapshot}
use rnde_m.Scenarios.World.Answers.{response}
use rnde_m.Scenarios.World.Laws.{snapshot_shows, get_elem?}
use rnde_m.Actuation.Motor.{ActuatorSignal}
use rnde_m.Actuation.Execution.{
  world_execution_failed, SelectedExperience, ExecutionRequest, ExecutionStatus,
  executed_and_observed, is_executed, World,
}
use rnde_m.Actuation.Execution.Response.{Response}
use rnde_m.Actuation.Execution.Observation.{LoopState}
use rnde_m.Actuation.Execution.Coordinator.{execute, prepare, selection_context}
use rnde_m.Actuation.Execution.Coordinator.Progress.{IsReady, IsTimely}
use rnde_m.Actuation.Execution.Coordinator.Readiness.{execute-IsReady}
use rnde_m.Actuation.Execution.Coordinator.Runs.{execute_all, execute_all-IsReady}
use rnde_m.Actuation.Execution.Coordinator.Safety.{execute_untouched, execute_taken}
use rnde_m.Examples.Thousandths.{thousandths}

abbrev forbidden : List Text
forbidden = codes "f_001" ∷ codes "f_002" ∷ []

search_id-total_example : search_id 3 (codes "f") forbidden (record { counters = [] }) ≢ none
search_id-total_example =
    search_id-total (codes "f") 3 forbidden (record { counters = [] }) (omega arith)

abbrev row_world : VisualWorld
row_world = record {
  rows = 1;
  columns = 3;
  current_tick = 0;
  row = 0;
  column = 1;
  next_snapshot_id = 1;
}

abbrev first_frame : NfpFrame ℤ
first_frame = record {
  frame_id = codes "seen_001";
  modality = visual;
  origin = external_sensory;
  topology = record { shape = 1 ∷ 3 ∷ [] };
  values = pos 0 ∷ pos 1000 ∷ pos 0 ∷ [];
  active_tick = 0;
  provenance_ref = none;
  debug_name = none;
}

abbrev pub first_window : NfpWindow ℤ
first_window = record {
  window_id = codes "window_001";
  first = first_frame;
  rest = [];
  provenance_ref = none;
  debug_name = none;
}

abbrev pub start : LoopState ℤ VisualWorld
start = record {
  ids = record { counters = [] };
  next_signal_id = 1;
  manager = record initial { current_external_sensory_window = some first_window };
  world = row_world;
  memory = some (fresh_memory 4 10);
}

abbrev pub expected : SerializedObservedEffectV1 ℤ
expected = record {
  modality = codes "visual";
  topology = 1 ∷ 3 ∷ [];
  delta_values = pos 0 ∷ negsuc 999 ∷ pos 1000 ∷ [];
}

abbrev pub core : FeedbackTargetCore ℤ
core = record {
  record_kind = codes "nfp_native";
  representation_version = 1;
  context = record {
    modality = codes "visual";
    topology = 1 ∷ 3 ∷ [];
    frames = (pos 0 ∷ pos 1000 ∷ pos 0 ∷ []) ∷ [];
  };
  action = record { modality = codes "action"; topology = 2 ∷ []; values = pos 0 ∷ pos 1000 ∷ [] };
  effect = expected;
  source_support_count = 3;
  source_proposal_id = codes "proposal_001";
  created_active_tick = 0;
  initialization_profile = codes "legacy_crud_defaults_v1";
  created_at_world = none;
}

abbrev pub right : SelectedExperience ℤ
right = record {
  selection_id = codes "selection_001";
  activation_id = codes "activation_001";
  retrieval_candidate_id = codes "candidate_001";
  source_experience_id = codes "experience_001";
  context_similarity = pos 900;
  activation = pos 800;
  action = record { modality = codes "action"; topology = 2 ∷ []; values = pos 0 ∷ pos 1000 ∷ [] };
  effect = expected;
  confidence = pos 500;
  repeatability = pos 500;
  viability = pos 500;
  target_core = some core;
}

abbrev pub request_at : ℕ → ExecutionRequest ℤ
request_at t = record { selected = right; selection_context_end_tick = t }

abbrev pub synthetic : World ℤ
synthetic = visual_world thousandths

abbrev pub answers : Response thousandths synthetic
answers = response thousandths

abbrev pub awake : SystemState
awake = record {
  mode = active;
  mode_entered_tick = 0;
  last_consolidation_tick = 0;
  consolidation_depth = 0;
}

abbrev pub digest : Text → Text
digest s = s

pub start-IsReady : IsReady thousandths synthetic answers digest start 0 first_window
unfolding size product
start-IsReady = record {
  coherent = record {
    seen = (record { is_visual = refl; from_sensors = (refl, tt) }, omega arith);
    awaited = refl;
    numbered = omega arith;
  };
  idle = refl;
  sees = refl;
  ends = refl;
  not_late = omega arith;
  framed = (tt, (tt, tt));
  activated = record {
    sized = refl;
    in_unit = (
      record { finite = refl; not_below = refl; not_above = refl },
      (
        record { finite = refl; not_below = refl; not_above = refl },
        (record { finite = refl; not_below = refl; not_above = refl }, tt),
      ),
    );
  };
  world_ready = record {
    placed = record { in_rows = omega arith; in_columns = omega arith };
    ticks = refl;
    shaped = refl;
  };
}

pub request-IsTimely :
    (t : ℕ) → IsTimely thousandths synthetic answers digest (request_at t) awake t
unfolding strip is_space
request-IsTimely t = record {
  executable = record {
    is_action = refl;
    for_motor = refl;
    sized = refl;
    in_unit = (
      record { finite = refl; not_below = refl; not_above = refl },
      (record { finite = refl; not_below = refl; not_above = refl }, tt),
    );
    has_source = refl;
    has_activation = refl;
    has_selection = refl;
  };
  now = refl;
  mode_active = refl;
}

execute-IsReady_example :
    let (r, u) = execute thousandths synthetic digest (request_at 0) awake true start in
    (r.status ≡ executed_and_observed)
    × ((after : NfpWindow ℤ) × IsReady thousandths synthetic answers digest u 1 after)
execute-IsReady_example =
    execute-IsReady thousandths synthetic answers digest (request_at 0) awake start 0 first_window
      start-IsReady (request-IsTimely 0)

abbrev calls : List (ExecutionRequest ℤ × SystemState)
calls = (request_at 0, awake) ∷ (request_at 1, awake) ∷ (request_at 2, awake) ∷ []

execute_all-IsReady_example :
    let (statuses, u) = execute_all thousandths synthetic answers digest calls start in
    (length statuses ≡ 3)
    × All (λ (status : ExecutionStatus). status ≡ executed_and_observed) statuses
    × ((after : NfpWindow ℤ) × IsReady thousandths synthetic answers digest u 3 after)
execute_all-IsReady_example =
    execute_all-IsReady thousandths synthetic answers digest calls start 0 first_window
      start-IsReady (request-IsTimely 0, (request-IsTimely 1, (request-IsTimely 2, tt)))

-- A request of another tick is stale.
execute_untouched_example :
    let r = (execute thousandths synthetic digest (request_at 5) awake true start).0 in
    let t = (execute thousandths synthetic digest (request_at 5) awake true start).1 in
    (t.manager ≡ start.manager)
    × (t.memory ≡ start.memory)
    × ((t.world ≡ start.world) ⊎ (r.status ≡ world_execution_failed))
unfolding execute prepare selection_context
execute_untouched_example =
    execute_untouched thousandths synthetic digest (request_at 5) awake true start refl

execute_taken_example :
    let r = (execute thousandths synthetic digest (request_at 0) awake true start).0 in
    (signal : ActuatorSignal ℤ) × (r.actuator_signal ≡ some signal)
    × ((synthetic.apply_actuator_signal signal start.world).0 ≡ ok tt)
execute_taken_example = execute_taken thousandths synthetic digest (request_at 0) awake true start (
    ap is_executed
      (execute-IsReady thousandths synthetic answers digest (request_at 0) awake start 0
        first_window start-IsReady (request-IsTimely 0)).0)

snapshot_shows_example :
    (values : List ℤ) × (snapshot thousandths row_world ≡ (
      ok (record { shape = 1 ∷ 3 ∷ []; values = values; active_tick = 0; snapshot_id = 1 }),
      record row_world { next_snapshot_id = 2 },
    ))
    × (length values ≡ 3)
    × (get_elem? values 1 ≡ some (pos 1000))
snapshot_shows_example =
    snapshot_shows thousandths row_world 1
      (record { in_rows = omega arith; in_columns = omega arith }) (omega arith)
