-- ===== src/Api.antt =====
-- Package api/v1: the custom resources, their parser and their admission webhooks.
pub mod DeepCopy
pub mod Ptp4lConf
pub mod HaProfiles
pub mod PtpConfig
pub mod Validate
pub mod Interfaces
pub mod OperatorConfig
pub mod Tests
