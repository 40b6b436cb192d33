-- ===== src/Cluster/Releases.antt =====
-- Which pod a write of the StatefulSet lets go during a rollout.
use qdrant_operator.Common.{
  ℕ, suc, ◌+◌, ◌-◌, ◌≤◌, ◌<◌, true, Option, some, ◌≡◌, sym, ap, ◌∙◌, arith, All, All-map,
}
use qdrant_operator.Api.Cluster.{QdrantCluster}
use qdrant_operator.Rebalance.Observation.{Observation}
use qdrant_operator.Upgrade.{rollout_in_progress, upgrade_partition}
use qdrant_operator.Upgrade.Order.{IsReady, partition_one_at_a_time, partition_advance-IsReady}
use qdrant_operator.Resources.StatefulSet.{StatefulSet}
use qdrant_operator.Cluster.Observe.{observe}
use qdrant_operator.Cluster.Apply.{Child, stateful_set, KubeCall, create, update, LiveSts}
use qdrant_operator.Cluster.Reconcile.{Inputs, found, upgrade_of, reconcile}
use qdrant_operator.Cluster.Gated.{IsGatedSet, IsGatedWrite, some_injective}
use qdrant_operator.Cluster.Applying.{reconcile-IsGatedWrite}

-- A pod is let go on the new revision: the set is written with a partition at or below its ordinal,
-- while it is not among the pods that are updated already, which have the highest ordinals.
pub record IsReleased (qc : QdrantCluster) (live : LiveSts) (s : StatefulSet) (ordinal : ℕ)
    : Type 0 where
  pub partition_is : ℕ
  pub written : s.partition ≡ some partition_is
  pub reached : partition_is ≤ ordinal
  pub outdated : ordinal < qc.spec.replicas - live.status.updated_replicas

-- In a rollout a written set lets go no pod but the last that is outdated, and that one only where all
-- pods are ready, all peers are back, nothing is transferred and no shard is in transition.
abbrev pub IsCautiousSet : Inputs → QdrantCluster → LiveSts → StatefulSet → Type 0
IsCautiousSet inp qc live s =
    (ordinal : ℕ)
    → IsReleased qc live s ordinal
    → (suc ordinal ≡ qc.spec.replicas - live.status.updated_replicas)
      × IsReady live.status qc.spec.replicas (observe inp.reads qc).1

abbrev IsCautiousChild : Inputs → QdrantCluster → LiveSts → Child → Type 0
IsCautiousChild inp qc live (stateful_set s) = IsCautiousSet inp qc live s
IsCautiousChild inp qc live _ = Unit

abbrev pub IsCautious : Inputs → QdrantCluster → LiveSts → KubeCall → Type 0
IsCautious inp qc live (create c) = IsCautiousChild inp qc live c
IsCautious inp qc live (update c) = IsCautiousChild inp qc live c
IsCautious inp qc live _ = Unit

module _ (inp : Inputs) (qc : QdrantCluster) (live : LiveSts) (read : inp.live ≡ some live)
    (rolling : rollout_in_progress (some live.status) ≡ true) where
  abbrev obs : Option Observation
  obs = (observe inp.reads qc).1

  abbrev partition_now : ℕ
  partition_now = upgrade_partition (some live.status) qc.spec.replicas obs

  set-IsCautious : (s : StatefulSet) → IsGatedSet inp qc s → IsCautiousSet inp qc live s
  set-IsCautious s g ordinal r = (
    omega (arith, at_now, r.reached, r.outdated, bounds.1),
    partition_advance-IsReady live.status qc.spec.replicas obs rolling
        (omega (arith, at_now, r.reached, r.outdated, bounds.0, bounds.1)),
  )
    where
      at_now : r.partition_is ≡ partition_now
      at_now = some_injective r.partition_is partition_now (
          sym r.written
          ∙ ap (λ (x : StatefulSet). x.partition) g.gated
          ∙ ap (λ o. some (upgrade_partition (upgrade_of o) qc.spec.replicas obs)) read)

      bounds :
          (partition_now ≤ qc.spec.replicas - live.status.updated_replicas)
          × (qc.spec.replicas ≤ partition_now + live.status.updated_replicas + 1)
      bounds = partition_one_at_a_time live.status qc.spec.replicas obs rolling

  child-IsCautious : (c : Child) → IsGatedWrite inp qc (create c) → IsCautiousChild inp qc live c
  child-IsCautious (stateful_set s) g = set-IsCautious s g
  child-IsCautious _ g = tt

  call-IsCautious : (c : KubeCall) → IsGatedWrite inp qc c → IsCautious inp qc live c
  call-IsCautious (create c) g = child-IsCautious c g
  call-IsCautious (update c) g = child-IsCautious c g
  call-IsCautious _ g = tt

-- During a rollout, whatever a pass writes to the StatefulSet lets go at most the pod of the highest
-- ordinal that is still on the old revision, and only where qdrant was observed, every pod is ready,
-- every peer is in consensus, no transfer is in flight, and no shard is in transition.
pub reconcile-IsCautious :
    (inp : Inputs) (qc : QdrantCluster) (live : LiveSts)
    → inp.cluster ≡ found qc
    → inp.live ≡ some live
    → rollout_in_progress (some live.status) ≡ true
    → All (IsCautious inp qc live) (reconcile inp).calls
reconcile-IsCautious inp qc live e read rolling =
    All-map (reconcile inp).calls (λ c g. call-IsCautious inp qc live read rolling c g)
      (reconcile-IsGatedWrite inp qc e)
