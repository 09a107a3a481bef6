-- ===== src/System.antt =====
-- The system mode (clc/system): the manager that changes it, and the guard of actions in each mode.
pub mod State
pub mod ModeManager
pub mod ActionGuard
pub mod Agreement
