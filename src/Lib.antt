-- ===== src/Lib.antt =====
-- Verification of the data structures of KaHyPar, a multilevel hypergraph partitioner.
--
-- The program contracts a hypergraph to a small one, partitions that, and undoes the contractions one
-- by one while local searches move hypernodes between blocks. All of these work on one mutable
-- hypergraph (kahypar/datastructure/hypergraph.h) and on a few containers made for fast resets. The
-- development models these by explicit state passing: a record per class, a function per member.
--
--   Prelude                   numbers, lists, arrays, 32-bit counters, sums, ordered sets of numbers
--   Containers.SparseSet, Containers.InsertOnlySparseSet
--                             kahypar/datastructure/sparse_set.h
--   Containers.SparseMap      kahypar/datastructure/sparse_map.h
--   Containers.FastResetArray kahypar/datastructure/fast_reset_array.h
--   Containers.ConnectivitySet
--                             kahypar/datastructure/connectivity_sets.h
--   Containers.FlagArray      the interface of FastResetFlagArray, a class of the kahypar-resources
--                             submodule: what create, set, test and reset are documented to do
--   Containers.HashMap        kahypar/datastructure/hash_table.h: HashMap
--   Containers.SegmentTree    kahypar/datastructure/segment_tree.h
--   Containers.BucketQueue    kahypar/datastructure/bucket_queue.h, over that interface
--   Hypergraph.State          the fields of GenericHypergraph and the members that read them
--   Hypergraph.Shape          what block assignment leaves alone
--   Hypergraph.Blocks         setNodePart, changeNodePart and what they call
--   Hypergraph.Contraction, Hypergraph.Uncontraction
--                             contract; uncontract, in its default version
--   Hypergraph.Restore        contract and uncontract together, and sequences of both, as the coarseners
--                             of kahypar/partition/coarsening call them
--   Hypergraph.Partition      what a partition determines, and what local search relies on
--   Hypergraph.Removal        removeNode, removeEdge, restoreEdge
--   Hypergraph.Fixed          fixed vertices, resetPartitioning, setPartition, reset
--   Hypergraph.Marks          active and marked hypernodes, initializeNumCutHyperedges
--   Hypergraph.Cut            when a net is cut, and what a move does to the nets of a hypernode
--   Metrics                   kahypar/partition/metrics.h: the objectives and their kept values
--   Refinement.Gains          the gain of a move in kahypar/partition/refinement: kway_fm_km1_refiner.h,
--                             kway_fm_cut_refiner.h, 2way_fm_refiner.h
--   Refinement.GainCache      kahypar/partition/refinement: gain_cache_element.h, kway_fm_gain_cache.h
--   Refinement.Search         kahypar/partition/refinement: the moves and the rollback of
--                             fm_refiner_base.h, and what the loop of refineImpl in
--                             kway_fm_km1_refiner.h does to the partition, the objective and the
--                             list of moves
--   Options                   kahypar/partition/context_enum_classes.h: options, their printed words
--                             and their parsers
--   Tests                     concrete inputs for the theorems
--
-- A child of a component's module defines its invariant (Bounds, Counts, Assign) or proves what an
-- operation does; names follow the source in lower case, so changeNodePart is `change_node_part`.
--
-- Choices of the model. Ids are natural numbers, and vectors of fixed length are functions from
-- indices, without an end: that an index lies inside is stated where a theorem speaks of it, for the
-- sparse sets, the sparse map and the bucket queue, and not elsewhere. Counters of type uint32_t
-- wrap where the code increments them; weights and keys are unbounded integers, since the program's
-- overflow on them is undefined. kInvalidPartition and kInvalidAddress are `none`; uncontract of a
-- hypernode without a block, which would write through kInvalidPartition, is `none` too. Assertions
-- are compiled out in a release and are hypotheses of the theorems where they matter. Loops run over
-- lists or count down, except the scan of one net in contract: its fuel is twice the size of the
-- net, which is enough when the contracted hypernode occurs once, as every slot is then passed after
-- one more round at most, and the recursions of the segment tree: their fuel is the length of the
-- sequence, which is enough. The local search runs over a list of choices, which stands for what its
-- queue gives until the queue is empty or the stopping policy ends the search: the theorems hold for
-- every such list whose gains are those that the source asserts. Doubles are a type of which nothing
-- is known. The searches for a slot in uncontract and removeNode count the slots of the net and
-- assume that the searched hypernode is among them, as the code does.
--
-- Not modelled: the constructors and extraction functions of the hypergraph, the version of
-- uncontract that reports gain changes, graph.h, the other three tables of hash_table.h, the
-- floating-point statistics of the metrics, the priority queue, stopping policies and updates of
-- neighbours' gains in the local searches, the loops of the other local searches, and the rest of
-- kahypar/partition: it combines the parts above with random choices, floating-point ratings or
-- external solvers. Input, output and the bindings are not modelled either.
pub mod Prelude
pub mod Containers
pub mod Hypergraph
pub mod Options
pub mod Metrics
pub mod Refinement
pub mod Tests
