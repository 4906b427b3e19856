-- ===== src/Domain.antt =====
-- The domain model that the components share: src/domain.
pub mod Action
pub mod Plan
pub mod Observation
pub mod Run
pub mod Config
