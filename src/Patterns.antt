-- ===== src/Patterns.antt =====
-- The natural-pattern data model (clc/patterns): frames, moments, windows, sequences, similarity.
pub mod Model
pub mod Window
pub mod Sequence
pub mod Similarity
