-- ===== src/Plan.antt =====
-- Plans: their schema and the patches that a replan applies to them.
pub mod Schema
pub mod Patch
