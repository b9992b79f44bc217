-- ===== src/Apply.antt =====
-- Package pkg/apply: merging an object into the one that the cluster has.
pub mod Unstructured
pub mod Merge
pub mod Object
pub mod Tests
