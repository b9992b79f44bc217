-- ===== src/Controllers.antt =====
-- Package controllers: the two reconcilers and the choice of the profiles of a node.
pub mod Recommend
pub mod PtpConfigController
pub mod OperatorController
mod Tests
mod ControllerTests
mod DataTests
mod OperatorTests
