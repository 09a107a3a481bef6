-- ===== src/Expsm.antt =====
-- What the experience store answers with and how its predictions fare (clc/expsm).
pub mod Feedback
pub mod Retrieval
