-- ===== src/Context.antt =====
-- Active context and short memory (clc/context): the causal transition that an action opens, the
-- manager's state of it, and the bounded memory of completed transitions.
pub mod Causal
pub mod Causality
pub mod Manager
pub mod ShortMemory
pub mod Handover
