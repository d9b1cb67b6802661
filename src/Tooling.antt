-- ===== src/Tooling.antt =====
-- The reliability tooling round calls of providers.
pub mod Policy
pub mod Http
pub mod Waiting
pub mod Dsn
