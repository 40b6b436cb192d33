-- ===== src/Backup.antt =====
-- internal/controller/backup.go and qdrantbackup_controller.go: snapshots of every collection on
-- every peer, one at a time, kept or pruned by retention.
pub mod Plan
pub mod Controller
pub mod Selection
pub mod Retention
mod Tests
