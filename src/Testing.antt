-- ===== src/Testing.antt =====
-- Package test/pkg/testconfig: the configuration of a test run, and what is discovered of the
-- cluster's.
pub mod Config
pub mod Discovery
pub mod Scan
pub mod AddInterface
pub mod AddedRole
mod Tests
