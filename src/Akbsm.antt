-- ===== src/Akbsm.antt =====
-- clc/akbsm: the associations observed at runtime.
pub mod Associations
