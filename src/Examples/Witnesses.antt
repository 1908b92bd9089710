-- ===== src/Examples/Witnesses.antt =====
-- The theorems at concrete inputs.
pub mod Service
pub mod Acme
pub mod Records
pub mod Publishing
pub mod Onboarding
pub mod Webhooks
pub mod Tooling
