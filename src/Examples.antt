-- ===== src/Examples.antt =====
-- Concrete runs: a small CA with its DNS provider, and the theorems at concrete inputs.
pub mod Lab
pub mod Portal
pub mod Host
pub mod Texts
pub mod Settling
pub mod Waiting
pub mod Remembering
pub mod Workshop
pub mod Zones
pub mod Keys
pub mod Runs
pub mod Witnesses
