-- ===== src/Api/DeepCopy.antt =====
-- api/v1/zz_generated.deepcopy.go: the copies of the resources, on an explicit memory.
pub mod Memory
pub mod Types
pub mod Cells
pub mod Copies
pub mod Deep
pub mod Tests
pub mod ResourceTests
