-- ===== src/Lib.antt =====
-- The cognitive loop of RNDeM, modelled and verified part by part.
--
-- The program (clc/) is a prototype of a cognitive loop that advances in ticks. Its natural-pattern
-- path takes frames of activations into windows (clc/patterns), keeps the present window, action and
-- the one causal transition that the action opens (clc/context/context_memory_manager.py), and
-- remembers completed transitions for a bounded time (clc/context/short_memory.py).
--
-- Files:
--   Prelude           shared notation, exceptions as values (`Result`), methods on a state (`Method`),
--                     Python's `str` as code points, `strip`, decimal formats, lists.
--                     Prelude.Floats takes Python's `float` as a parameter with the laws of IEEE
--                     comparison that are used; NaN is not excluded. The builtin `sum`, whose
--                     rounding depends on the version of Python, is one of its operations.
--   Patterns.Model    clc/patterns/model.py (topology, frame, moment), clc/patterns/reactivation.py
--   Patterns.Window   clc/patterns/model.py (NFPWindow); its child Laws says what is accepted
--   Patterns.Sequence clc/patterns/model.py (NFPSequence)
--   Patterns.Similarity clc/patterns/similarity.py
--   Context.Causal    clc/context/causal_transition.py
--   Context.Manager   clc/context/context_memory_manager.py, its natural-pattern methods
--   Context.ShortMemory clc/context/short_memory.py
--   Context.Handover  both together: completed transitions handed to the short memory
--   Transduction.Visual clc/transduction/visual.py: snapshots of a field and their frames
--   Transduction.Windowing clc/transduction/windowing.py, the sliding assembler of windows
--   Experience.Effects, Experience.Evidence, Experience.Grouping
--                     clc/experience/effects.py, evidence.py and grouping.py: what a completed
--                     transition changed, the evidence of it, and candidates that evidence supports
--   Runtime.Policy    clc/runtime/memory_mutation_policy.py
--   Runtime.Proposal  clc/runtime/akbsm_draft_proposal.py, the record and its check
--   Runtime.Lifecycle clc/runtime/akbsm_proposal_lifecycle.py, with its diagram of states
--   Runtime.Metadata  clc/runtime/context_temporary_metadata.py, entries with a bounded lifetime
--   Actuation.Motor   clc/actuation/motor.py, from action frames to signals
--   System.State, System.ModeManager, System.ActionGuard
--                     clc/system/system_state.py, system_mode_manager.py and the decision of
--                     mode_action_guard.py; System.Agreement holds the two against each other
--   Core.Ids          clc/core/ids.py; its child Fresh is about the search for a free id
--   Experience.Json, Experience.Serialized, Experience.Records
--                     clc/experience/expsm_representation.py: the values that are written, the
--                     persistent patterns, and the native records with their adapter
--   Actuation.Execution
--                     clc/actuation/remembered_action_execution.py: the coordinator that takes a
--                     remembered action through the guard and the motor into a world, and observes
--                     what it did. The world is an interface (Execution.Response).
--   Expsm.Feedback    clc/expsm/nfp_native_feedback.py: an executed prediction held against the effect
--   Expsm.Retrieval   clc/expsm/nfp_operational_retrieval.py and the reading of a target from a record
--                     (clc/expsm/nfp_feedback_target.py); the decoded store is an argument
--   Field.Active      clc/field/active_context_field.py and active_pattern.py: the active patterns,
--                     their activation, decay and suppression
--   Akbsm.Associations
--                     clc/akbsm/akbsm_association_field.py: the observed associations, their update
--                     and decay
--   Scenarios.World   scenarios/support/synthetic_closed_loop_visual_world.py, which meets it
--   Examples          concrete inputs, on which the theorems are applied, and an instance of floats
--
-- Conventions. A dataclass is a record and its `__post_init__` a function that returns the record or
-- raises; a method is a function of the state that returns its result and the new state, also when it
-- raises. A tick that a caller passes in is an integer, one that is already an attribute of a frame
-- or window is a natural. `isinstance` tests have no counterpart, since arguments are typed.
-- An int that is too large for a float is an error where a stored value is converted; the counts,
-- sizes and elapsed ticks that enter an arithmetic of floats are taken to be smaller. A
-- non-empty tuple that a constructor demands is a first element and the rest. Two loops take fuel:
-- the decimal print, which is given one round more than the number, and the search for a free id,
-- which is given one round more than there are forbidden ids. Factors, depths and activations
-- that the source gives as decimal literals are kept in hundredths. The SHA-256 digest of the
-- evidence ids and of the signals' frame references is a parameter, a function of texts of which
-- nothing is assumed, as are `str.lower` and the test that a record id is numeric; the ids that the pattern registry hands out are parameters
-- too.
--
-- Not modelled: the retention of the legacy context memory, the audit lists of the guard,
-- the runtime's wiring and phases, the AKBSM and ExpSM stores on
-- disk, the float-valued heuristics of evaluation, neuromodulation and scoring, the scenario runner
-- and the tools.
pub mod Prelude
pub mod Core
pub mod Patterns
pub mod Context
pub mod Runtime
pub mod System
pub mod Experience
pub mod Transduction
pub mod Actuation
pub mod Expsm
pub mod Field
pub mod Akbsm
pub mod Scenarios
mod Examples
