-- ===== src/Hypergraph/Cut.antt =====
-- When a net is cut, and the number of cut nets at each hypernode under changeNodePart.
pub mod Spread
pub mod Ready
pub mod Step
pub mod CutNets
pub mod Connectivity
pub mod Shares
pub mod Movable
pub mod Loop
