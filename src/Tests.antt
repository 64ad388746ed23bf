-- ===== src/Tests.antt =====
-- Concrete inputs at which the theorems apply.
pub mod Blocks
pub mod Nets
pub mod Containers
pub mod Queue
pub mod Cuts
pub mod Gains
pub mod Search
pub mod LocalSearch
pub mod Contractions
pub mod Segments
pub mod Caches
pub mod Maps
