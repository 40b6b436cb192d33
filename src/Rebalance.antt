-- ===== src/Rebalance.antt =====
-- internal/controller/rebalance.go: the shard planner and its executor.
pub mod Observation
pub mod Moves
pub mod SizePlanner
pub mod Planner
pub mod Repair
pub mod Backoff
pub mod Delay
pub mod Executor
pub mod Facts
pub mod Safety
pub mod SizeSafety
pub mod Energy
pub mod Convergence
pub mod Completeness
pub mod Target
pub mod RepairSafety
pub mod Priority
pub mod Durability
pub mod Lane
pub mod Operations
pub mod Issue
pub mod Stepwise
mod Tests
