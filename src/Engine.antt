-- ===== src/Engine.antt =====
-- packages/engine: the deterministic rules.
pub mod Resolution
pub mod Probability
pub mod PhysicalRolls
pub mod Apply
pub mod Compensation
