-- ===== src/Api.antt =====
-- The custom resources of api/v1alpha1, as far as the controllers read and write them. Objects'
-- metadata is the name, the namespace and the generation; a time is a number of nanoseconds.
pub mod Conditions
pub mod Spec
pub mod Cluster
pub mod Collection
pub mod Backup
pub mod Restore
