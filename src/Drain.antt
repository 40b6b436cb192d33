-- ===== src/Drain.antt =====
-- internal/controller/drain.go: scale-in by draining the highest ordinal before it is removed.
pub mod Ordinals
pub mod Plan
pub mod Cycle
pub mod Steps
pub mod Safety
pub mod Completeness
pub mod Allowed
pub mod Guards
pub mod Restraint
pub mod Announced
pub mod Pending
mod Tests
