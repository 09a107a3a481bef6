-- ===== src/Transduction.antt =====
-- From sensor snapshots to frames and windows (clc/transduction).
pub mod Visual
pub mod Windowing
