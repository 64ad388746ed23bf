-- ===== src/Refinement.antt =====
-- Local search: the gain of a move.
pub mod Gains
pub mod GainCache
pub mod Search
