-- ===== src/Examples.antt =====
-- Concrete inputs: the theorems applied where their hypotheses hold, and runs of the model.
mod Thousandths
mod Sensors
mod Patterns
mod Context
mod Runtime
mod System
mod Experience
mod Transduction
mod Actuation
mod Execution
mod Feedback
mod Field
mod Akbsm
mod Records
