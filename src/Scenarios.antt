-- ===== src/Scenarios.antt =====
-- The support code of the scenarios (scenarios/support) that the program runs against.
pub mod World
