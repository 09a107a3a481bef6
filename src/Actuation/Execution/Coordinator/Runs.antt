-- ===== src/Actuation/Execution/Coordinator/Runs.antt =====
-- Any number of calls of `NFPRememberedActionExecutionCoordinator.execute`, one at each tick.
use rnde_m.Prelude.{ℕ, ◌+◌, ◌≡◌, refl, subst, true, List, [], ◌∷◌, arith, length, All, Text}
use rnde_m.Prelude.Floats.{Floats}
use rnde_m.Patterns.Window.{NfpWindow}
use rnde_m.System.State.{SystemState}
use rnde_m.Actuation.Execution.{ExecutionRequest, ExecutionStatus, executed_and_observed, World}
use rnde_m.Actuation.Execution.Response.{Response}
use rnde_m.Actuation.Execution.Observation.{Loop}
use rnde_m.Actuation.Execution.Coordinator.{execute}
use rnde_m.Actuation.Execution.Coordinator.Progress.{IsReady, IsTimely}
use rnde_m.Actuation.Execution.Coordinator.Readiness.{execute-IsReady}

module _ (F : Floats) (W : World (F.Float)) (R : Response F W) (digest : Text → Text) where
  open F use {Float}

  -- One call of `execute` after the other, each with a request and the system state of its time.
  unfoldable pub execute_all :
      List (ExecutionRequest Float × SystemState) → Loop F W → List ExecutionStatus × Loop F W
  execute_all [] s = ([], s)
  execute_all ((request, system) ∷ rest) s =
      let (r, t) = execute F W digest request system true s in
      let (statuses, u) = execute_all rest t in (r.status ∷ statuses, u)

  -- Each request is timely at its tick, and the ticks follow one another.
  abbrev pub AllTimely : ℕ → List (ExecutionRequest Float × SystemState) → Type 0
  AllTimely t [] = Unit
  AllTimely t ((request, system) ∷ rest) =
      IsTimely F W R digest request system t × AllTimely (t + 1) rest

  -- Started in order, with a world that answers signals and shows itself, and asked once per tick
  -- with a timely request: every call of `execute` is answered, with the status
  -- EXECUTED_AND_OBSERVED, and afterwards the coordinator is in order at the tick after the last
  -- call.
  pub execute_all-IsReady :
      (calls : List (ExecutionRequest Float × SystemState)) (s : Loop F W) (t : ℕ)
      (w : NfpWindow Float)
      → IsReady F W R digest s t w
      → AllTimely t calls
      → let (statuses, u) = execute_all calls s in
        (length statuses ≡ length calls)
        × All (λ (status : ExecutionStatus). status ≡ executed_and_observed) statuses
        × ((after : NfpWindow Float) × IsReady F W R digest u (t + length calls) after)
  unfolding execute_all
  execute_all-IsReady [] s t w h k =
      (refl, tt, (w, subst (λ n. IsReady F W R digest s n w) (omega arith) h))
  execute_all-IsReady ((request, system) ∷ rest) s t w h k =
      let (done, (w₁, ready)) = execute-IsReady F W R digest request system s t w h k.0 in
      let (counted, all_done, (w₂, last)) =
        execute_all-IsReady rest (execute F W digest request system true s).1 (t + 1) w₁ ready
          k.1 in
      (
        omega arith,
        (done, all_done),
        (
          w₂,
          subst
              (λ n.
                IsReady F W R digest
                  (execute_all rest (execute F W digest request system true s).1).1 n w₂)
              (omega arith) last,
        ),
      )
