-- ===== src/Cluster.antt =====
-- internal/controller/qdrantcluster_controller.go and tls.go: what is observed of qdrant, how the objects
-- and the status of a QdrantCluster are brought up to date, and how its qdrant is reached.
pub mod Observe
pub mod Status
pub mod Gate
pub mod Apply
pub mod Reconcile
pub mod Steps
pub mod Gated
pub mod Applying
pub mod Releases
pub mod Endpoint
pub mod Secure
mod Tests
