-- ===== src/Experience.antt =====
-- Pre-ExpSM experience (clc/experience): observed effects, occurrence evidence, and its grouping.
pub mod Effects
pub mod Evidence
pub mod Grouping
pub mod Json
pub mod Serialized
pub mod Records
