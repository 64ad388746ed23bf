-- ===== src/Containers.antt =====
-- kahypar/datastructure: the containers that the hypergraph and the local searches are built on.
pub mod SparseSet
pub mod InsertOnlySparseSet
pub mod ConnectivitySet
pub mod SparseMap
pub mod FlagArray
pub mod BucketQueue
pub mod FastResetArray
pub mod SegmentTree
pub mod HashMap
