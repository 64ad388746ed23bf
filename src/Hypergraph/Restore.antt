-- ===== src/Hypergraph/Restore.antt =====
-- contract and then uncontract: the structure of the hypergraph, up to the order of the pins within a
-- net and of the nets at a hypernode.
pub mod Slices
pub mod Structure
pub mod Frames
pub mod Contracted
pub mod Contract
pub mod Contraction
pub mod Positions
pub mod Undone
pub mod Uncontract
pub mod Loop
pub mod Memento
pub mod Start
pub mod Restored
pub mod RoundTrip
pub mod Kept
pub mod Sequence
