-- ===== src/Runtime.antt =====
-- Metadata-only parts of clc/runtime: draft proposals, their review lifecycle, the memory policy.
pub mod Policy
pub mod Proposal
pub mod Lifecycle
pub mod Metadata
