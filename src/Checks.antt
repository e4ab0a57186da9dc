-- ===== src/Checks.antt =====
-- The deployment checks of extension/tools/pkg/validate.
pub mod EnvFile
pub mod Probe
pub mod Environment
pub mod Readiness
pub mod Verdicts
pub mod Deploy
pub mod Registration
mod Tests
