-- ===== src/Core.antt =====
-- Identifiers (clc/core).
pub mod Ids
