-- ===== src/Cluster/Apply.antt =====
-- `applyOwned` and `stsImmutableChanged` of internal/controller/qdrantcluster_controller.go: an object is
-- created or updated, and what apiserver would refuse of a StatefulSet is seen before.
use qdrant_operator.Common.{
  ℕ, Text, Bool, true, false, not, ◌||◌, Option, List, [], ◌∷◌, ◌++◌, if◌then◌else◌, text_eq,
}
use qdrant_operator.Common.Dict.{Dict}
use qdrant_operator.Pass.{Call}
use qdrant_operator.Upgrade
use qdrant_operator.Resources.ConfigFile.{ConfigMap}
use qdrant_operator.Resources.Objects.{Service, ServiceAccount, PodDisruptionBudget}
use qdrant_operator.Resources.StatefulSet.{StatefulSet, VolumeClaim}

-- The children of a QdrantCluster.
pub data Child : Type 0 where
  service_account : ServiceAccount → Child
  config_map : ConfigMap → Child
  service : Service → Child
  budget : PodDisruptionBudget → Child
  stateful_set : StatefulSet → Child

-- What a pass sends: the writes of children, the deletion of a stale budget and of a stuck pod, and
-- the calls of the parts that work on the status and on qdrant.
pub data KubeCall : Type 0 where
  create update : Child → KubeCall
  delete_budget : Text → KubeCall
  delete_pod : Text → KubeCall
  pass_call : Call → KubeCall

pub data Presence : Type 0 where
  present absent unreadable : Presence

pub data Creation : Type 0 where
  created already_exists refused : Creation

-- What apiserver answers for a child: whether it can be owned, the read from the cache, the creation,
-- the second read after a creation that found it there, and the update.
pub record ApplyAnswers : Type 0 where
  pub owned : Child → Bool
  pub read : Child → Presence
  pub create : Child → Creation
  pub read_again : Child → Presence
  pub update : Child → Bool

-- The calls, and whether it succeeded.
abbrev pub Applied : Type 0
Applied = List KubeCall × Bool

abbrev pub update_child : ApplyAnswers → Child → List KubeCall → Presence → Applied
update_child answers c calls present = (calls ++ (update c ∷ []), answers.update c)
update_child answers c calls absent = (calls, false)
update_child answers c calls unreadable = (calls, false)

abbrev pub create_child : ApplyAnswers → Child → Creation → Applied
create_child answers c created = (create c ∷ [], true)
create_child answers c already_exists =
    update_child answers c (create c ∷ []) (answers.read_again c)
create_child answers c refused = (create c ∷ [], false)

abbrev pub apply_read : ApplyAnswers → Child → Presence → Applied
apply_read answers c present = update_child answers c [] present
apply_read answers c absent = create_child answers c (answers.create c)
apply_read answers c unreadable = ([], false)

unfoldable pub apply_owned : ApplyAnswers → Child → Applied
apply_owned answers c =
    if answers.owned c then apply_read answers c (answers.read c) else ([], false)

-- One after the other, until one fails.
unfoldable pub apply_all : ApplyAnswers → List Child → Applied
apply_all answers [] = ([], true)
apply_all answers (c ∷ cs) =
    let first = apply_owned answers c in
    let rest = apply_all answers cs in if first.1 then (first.0 ++ rest.0, rest.1) else first

-- The StatefulSet in the cluster: what the guards read of its spec, and its status.
pub record LiveSts : Type 0 where
  pub service_name : Text
  pub storage : List Text
  pub selector : Dict Text Text
  pub spec_replicas : Option ℕ
  pub status : Upgrade.StatefulSet
  pub status_replicas : ℕ

-- `Quantity.Equal` and `Semantic.DeepEqual` of selectors.
pub record Equalities : Type 0 where
  pub same_quantity : Text → Text → Bool
  pub same_selector : Dict Text Text → Dict Text Text → Bool

-- Only the size of the first claim is compared, since apiserver fills in the rest.
abbrev storage_changed : Equalities → List Text → List VolumeClaim → Bool
storage_changed eq (e ∷ es) (c ∷ cs) = not (eq.same_quantity e c.storage)
storage_changed eq _ _ = false

unfoldable pub sts_immutable_changed : Equalities → LiveSts → StatefulSet → Bool
sts_immutable_changed eq existing desired =
    not (text_eq existing.service_name desired.service_name)
    || (storage_changed eq existing.storage desired.volume_claims
        || not (eq.same_selector existing.selector desired.selector))
