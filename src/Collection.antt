-- ===== src/Collection.antt =====
-- internal/controller/qdrantcollection_controller.go and reshard.go: collections that are created,
-- adopted, aliased and resharded through a shadow copy.
pub mod Pass
pub mod Reshard
pub mod Controller
pub mod Disposal
pub mod Reversible
pub mod Disposition
pub mod Samples
mod Tests
