-- ===== src/Lib.antt =====
-- Verification of the Qdrant operator: a Kubernetes operator that runs Qdrant clusters, moves and
-- replicates their shards, drains peers before it removes them, takes backups and restores them, and
-- keeps collections as declared. A reconciler is called with an object, reads what Kubernetes and Qdrant
-- report, and makes at most a few calls.
--
-- Model. A pass of a reconciler is a function from the object, and from what it reads, to the object as
-- it is changed in memory and the calls that leave the reconciler, in order. Reads, and whether a call
-- succeeds, are parameters: Kubernetes, Qdrant, the cron parser, the URL parser and apimachinery's
-- functions on conditions are not part of the repository. Time is in nanoseconds. Peer ids, shard ids and
-- point counts are natural numbers, with the wrap-around of uint64 and int32 written out where the code
-- computes with them; texts are lists of bytes; a Go map is a list of its entries. Loops run over lists,
-- so no fuel is needed; Simulation runs a given number of passes, and its theorem says how many are
-- enough.
--
-- Files and the code they model:
--   Common        tests, lists, sorting, bytes and decimal texts, comparison in stages, and
--                 dictionaries (Go maps) with their laws
--   Qdrant        internal/qdrant/client.go, cluster.go, snapshot.go: the values that its client returns
--   Client        internal/qdrant/http.go, cluster.go, points.go, snapshot.go: the client's methods, by what
--                 they are about; Membership, Holders and Successes hold the proofs
--   Api           api/v1alpha1/*_types.go: Spec is the whole QdrantClusterSpec; of the other types, the
--                 fields that the controllers read or write; conditions
--   Pass          a pass over a QdrantCluster: the object, the calls, the answers
--   Rebalance     internal/controller/rebalance.go: Observation (observation and its tests), Planner and
--                 SizePlanner (planRebalance, planSizeRebalance), Repair (planReplications,
--                 planDeadDrops), Backoff (backoff), Executor (settleActiveMove, issueActiveMove,
--                 reconcileRebalance, clearMoveFailed); the other files hold the proofs
--   Upgrade       internal/controller/upgrade.go: rolloutInProgress, upgradeReady, upgradePartition
--   Drain         internal/controller/drain.go: Ordinals (peerOrdinals), Plan (planPeerDrain), Cycle
--                 (reconcileDrainCycle); the other files hold the proofs
--   Backup        internal/controller/backup.go (Plan), qdrantbackup_controller.go (Controller);
--                 Selection and Retention hold the proofs
--   Collection    internal/controller/qdrantcollection_controller.go (Controller, Pass) and reshard.go
--                 (Reshard); Disposal, Reversible and Disposition hold the proofs
--   Restore       internal/controller/qdrantrestore_controller.go; Progress holds the proofs
--   NodeFailure   internal/controller/nodefailure.go
--   Cluster       internal/controller/qdrantcluster_controller.go: Observe (observe, collectSizes),
--                 Status (reconcileStatus), Apply (applyOwned) and Reconcile (Reconcile, gateRollout),
--                 with the tests of tls.go; Endpoint (the rest of tls.go, internal/qdrant/tls.go); Gate,
--                 Steps, Gated, Applying, Releases and Secure hold the proofs
--   Resources     internal/resources: ConfigFile (configmap.go), Objects (services, service
--                 account, disruption budget, names), Pod and StatefulSet (statefulset.go); Wiring holds
--                 the proofs
--   Fake          internal/qdrant/fake.go, the Qdrant that the tests of the controllers use: its state and
--                 every method, by what they are about
--   Simulation    the controllers run on that Fake: copying a collection page by page, a move from its
--                 issue to its settling, the swap of two collections behind an alias
--   Metrics       internal/controller/metrics.go
--   Fixtures      concrete values that the tests share
--
-- The planner, the drain and the status of a cluster meet in one lane: a move is recorded in
-- status.activeMove before it is issued, and nothing new is issued until it is settled. Drain.Cycle and
-- Cluster.Status run Rebalance.Executor on the same record. Cluster.Reconcile runs Cluster.Status after
-- it has applied the objects of Resources.
--
-- Not modelled: the calls of Metrics by the controllers, which nothing reads back, cmd/main.go and
-- generated code. The HTTP transport, encoding/json and the server are parameters of Client; the
-- controllers take the answers of Kubernetes and Qdrant as inputs, or run on the Fake. Messages of
-- conditions and events are left out; their reasons are kept.
pub mod Common
pub mod Qdrant
pub mod Api
pub mod Pass
pub mod Fixtures
pub mod Resources
pub mod Rebalance
pub mod Upgrade
pub mod Drain
pub mod Fake
pub mod Backup
pub mod Collection
pub mod Restore
pub mod NodeFailure
pub mod Cluster
pub mod Client
pub mod Metrics
pub mod Simulation
