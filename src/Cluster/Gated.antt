-- ===== src/Cluster/Gated.antt =====
-- What a write of the StatefulSet has to respect.
use qdrant_operator.Common.{ℕ, ◌+◌, ◌≤◌, false, Option, none, some, ◌≡◌, refl, ap}
use qdrant_operator.Api.Cluster.{QdrantCluster}
use qdrant_operator.Rebalance.Observation.{Observation}
use qdrant_operator.Upgrade
use qdrant_operator.Upgrade.{rollout_in_progress, upgrade_partition}
use qdrant_operator.Resources.StatefulSet.{StatefulSet, build_stateful_set}
use qdrant_operator.Cluster.Observe.{observe}
use qdrant_operator.Cluster.Status.{tls_misconfigured}
use qdrant_operator.Cluster.Apply.{
  Child, stateful_set, KubeCall, create, update, pass_call, LiveSts, sts_immutable_changed,
}
use qdrant_operator.Cluster.Steps.{IsStepped}
use qdrant_operator.Cluster.Reconcile.{Inputs, upgrade_of, is_scale_in}

-- The StatefulSet with the partition that the rollout allows, which is 0 outside one.
abbrev pub gated_set : Inputs → QdrantCluster → StatefulSet
gated_set inp qc = record (build_stateful_set inp.sha256 qc) {
  partition =
      some (upgrade_partition (upgrade_of inp.live) qc.spec.replicas (observe inp.reads qc).1);
}

-- A StatefulSet is written as rendered, with that partition, if the live one differs in no immutable
-- field and has no more replicas than wanted, and TLS has its certificate.
pub record IsGatedSet (inp : Inputs) (qc : QdrantCluster) (s : StatefulSet) : Type 0 where
  pub gated : s ≡ gated_set inp qc
  pub same_fields :
      (live : LiveSts)
      → inp.live ≡ some live
      → sts_immutable_changed inp.equalities live (build_stateful_set inp.sha256 qc) ≡ false
  pub no_scale_in : (live : LiveSts) → inp.live ≡ some live → is_scale_in qc live ≡ false
  pub certified : tls_misconfigured qc ≡ false

abbrev pub IsGatedChild : Inputs → QdrantCluster → Child → Type 0
IsGatedChild inp qc (stateful_set s) = IsGatedSet inp qc s
IsGatedChild inp qc _ = Unit

-- The number of pods is written alone, by the drain, on a scale-in of a set that differs in no immutable
-- field: one less than it has, and no less than is wanted.
pub record IsGatedStep (inp : Inputs) (qc : QdrantCluster) (n : ℕ) : Type 0 where
  pub live : LiveSts
  pub read : inp.live ≡ some live
  pub same_fields :
      sts_immutable_changed inp.equalities live (build_stateful_set inp.sha256 qc) ≡ false
  pub has : live.spec_replicas ≡ some (n + 1)
  pub wanted : qc.spec.replicas ≤ n

-- What each call may write of a StatefulSet: the whole set, as a child, or its number of pods.
abbrev pub IsGatedWrite : Inputs → QdrantCluster → KubeCall → Type 0
IsGatedWrite inp qc (create c) = IsGatedChild inp qc c
IsGatedWrite inp qc (update c) = IsGatedChild inp qc c
IsGatedWrite inp qc (pass_call c) = IsStepped (IsGatedStep inp qc) c
IsGatedWrite inp qc _ = Unit

pub still-partition :
    (live : Option Upgrade.StatefulSet) (replicas : ℕ) (obs : Option Observation)
    → rollout_in_progress live ≡ false
    → upgrade_partition live replicas obs ≡ 0
unfolding upgrade_partition
still-partition live replicas obs e = rw e refl

pub some_injective {ℓ} : {A : Type ℓ} (a b : A) → some a ≡ some b → a ≡ b
some_injective a b h = ap (λ x. elim x [ some y ↦ y | none ↦ a ]) h
