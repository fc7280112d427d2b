-- ===== src/Tests.antt =====
-- Concrete runs of the modelled code, and the theorems at concrete inputs.
pub mod Findings
pub mod Planning
pub mod Proofs
pub mod Gates
pub mod Sessions
pub mod Sources
pub mod Drivers
pub mod Prompts
