-- ===== src/Clients.antt =====
-- Package pkg/client: the generated clients of the resources, and their fakes.
pub mod Types
pub mod Typed
pub mod Fakes
pub mod Told
pub mod Listed
pub mod Clientset
pub mod Tests
