-- ===== src/Manipulation.antt =====
-- src/coreconfManipulation.c: the paths to SIDs in a tree of deltas.
pub mod Lookup
pub mod Examine
pub mod Path
