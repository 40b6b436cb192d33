-- ===== src/Simulation.antt =====
-- The controllers of internal/controller run on the client of internal/qdrant/fake.go, as the tests
-- of the repository run them.
pub mod Collections
pub mod Pages
pub mod Copy
pub mod Batch
pub mod Copied
pub mod Holders
pub mod Effects
pub mod Moves
pub mod Swap
mod Tests
