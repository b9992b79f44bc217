-- ===== src/Manager.antt =====
-- main.go: the operator's entry point.
pub mod Election
pub mod Options
pub mod Default
pub mod Setup
pub mod Run
pub mod Wait
pub mod Tests
