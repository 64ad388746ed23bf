-- ===== src/Options.antt =====
-- kahypar/partition/context_enum_classes.h: the enumerations of the configuration.
pub mod Partitioning
pub mod Coarsening
pub mod Refinement
pub mod Evolution
pub mod Spelling
pub mod Reading
pub mod Printing
pub mod RoundTrip
