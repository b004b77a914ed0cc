-- ===== src/Domain.antt =====
-- internal/domain: the entities, the sentinel errors and the times that the other parts share.
pub mod Time
pub mod Errors
pub mod Entities
pub mod Metrics
pub mod Classify
