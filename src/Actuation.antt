-- ===== src/Actuation.antt =====
-- From action frames to actuator signals (clc/actuation).
pub mod Motor
pub mod Execution
