-- ===== src/Field.antt =====
-- The field of active patterns (clc/field).
pub mod Active
