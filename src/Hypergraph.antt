-- ===== src/Hypergraph.antt =====
-- GenericHypergraph of kahypar/datastructure/hypergraph.h.
pub mod State
pub mod Shape
pub mod Blocks
pub mod Marks
pub mod Cut
pub mod Contraction
pub mod Uncontraction
pub mod Partition
pub mod Restore
pub mod Removal
pub mod Fixed
