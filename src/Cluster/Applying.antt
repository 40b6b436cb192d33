-- ===== src/Cluster/Applying.antt =====
-- When a pass writes the StatefulSet, and what it writes.
use qdrant_operator.Common.{
  ℕ, ◌+◌, ◌-◌, ltb, true, arith, Option-cases, false, Option, none, some, List, [], ◌∷◌, ◌++◌, ◌≡◌,
  refl, sym, ap, ◌∙◌, subst, map, All, All-append, Bool-cases, inl, inr,
}
use qdrant_operator.Api.Conditions.{Reason}
use qdrant_operator.Pass.{Pass, update_status, set_condition, Call, seconds}
use qdrant_operator.Api.Cluster.{QdrantCluster}
use qdrant_operator.NodeFailure.{Pod}
use qdrant_operator.Upgrade.{rollout_in_progress}
use qdrant_operator.Resources.Objects.{PodDisruptionBudget, build_pod_disruption_budget}
use qdrant_operator.Resources.StatefulSet.{StatefulSet, build_stateful_set}
use qdrant_operator.Cluster.Observe.{observe}
use qdrant_operator.Cluster.Status.{StatusInputs, tls_misconfigured, auth_without_tls}
use qdrant_operator.Cluster.Apply.{
  Child, stateful_set, KubeCall, create, update, pass_call, Presence, present, absent, unreadable,
  Creation, created, already_exists, refused, Applied, update_child, create_child, apply_read,
  apply_owned, apply_all, LiveSts, sts_immutable_changed,
}
use qdrant_operator.Cluster.Reconcile.{
  Inputs, Outcome, found, finish_status, upgrade_of, gate_rollout, apply_sts, warn_plain, roll_out,
  immutable_drift, degrade, pause_drain, commit, start, drain_inputs, missing_certificate,
  drain_cycle, apply_guarded, is_scale_in, guard_sts, budget_child, stale_budget, tried_pod,
  first_steps, children_of, proceed, reconcile_found, reconcile_with, reconcile,
}
use qdrant_operator.Cluster.Steps.{IsStepped, status-IsStepped, drain-IsStepped}
use qdrant_operator.Cluster.Gated.{
  IsGatedStep, IsGatedChild, IsGatedSet, IsGatedWrite, gated_set, some_injective, still-partition,
}

step_has :
    (o : Option ℕ) (wanted : ℕ)
    → (elim o [ none ↦ false | some n ↦ ltb wanted n ]) ≡ true
    → o ≡ some ((elim o [ none ↦ 0 | some n ↦ n ]) - 1 + 1)
step_has none wanted h = absurd (ground (arith, h))
step_has (some n) wanted h = ap (λ k. some k) (ground (arith, h))

module _ (inp : Inputs) (qc : QdrantCluster) where
  abbrev Writes : List KubeCall → Type 0
  Writes = All (IsGatedWrite inp qc)

  sent-gated :
      (calls : List Call)
      → All (IsStepped (IsGatedStep inp qc)) calls
      → Writes (map pass_call calls)
  sent-gated [] h = tt
  sent-gated (c ∷ calls) h = (h.0, sent-gated calls h.1)

  owned-gated : (c : Child) → IsGatedChild inp qc c → Writes (apply_owned inp.apply c).0
  unfolding apply_owned
  owned-gated c h = elim (Bool-cases (inp.apply.owned c)) [
    | inr e ↦ rw e tt
    | inl e ↦ rw e (read (inp.apply.read c))
  ]
    where
      again :
          (calls : List KubeCall) (p : Presence)
          → Writes calls
          → Writes (update_child inp.apply c calls p).0
      again calls present w = All-append (IsGatedWrite inp qc) calls (update c ∷ []) w (h, tt)
      again calls absent w = w
      again calls unreadable w = w

      made : (r : Creation) → Writes (create_child inp.apply c r).0
      made created = (h, tt)
      made already_exists = again (create c ∷ []) (inp.apply.read_again c) (h, tt)
      made refused = (h, tt)

      read : (p : Presence) → Writes (apply_read inp.apply c p).0
      read present = again [] present tt
      read absent = made (inp.apply.create c)
      read unreadable = tt

  All-gated : (cs : List Child) → All (IsGatedChild inp qc) cs → Writes (apply_all inp.apply cs).0
  unfolding apply_all
  All-gated [] h = tt
  All-gated (c ∷ cs) h = elim (Bool-cases (apply_owned inp.apply c).1) [
    | inl e ↦ rw e (
        All-append (IsGatedWrite inp qc) _ (apply_all inp.apply cs).0 (owned-gated c h.0)
          (All-gated cs h.1))
    | inr e ↦ rw e (owned-gated c h.0)
  ]

  finish-gated : (q : QdrantCluster) (o : Option StatusInputs) → Writes (finish_status q o).calls
  unfolding finish_status
  finish-gated q none = tt
  finish-gated q (some si) = sent-gated _ (status-IsStepped (IsGatedStep inp qc) si q)

  apply_sts-gated :
      (q : QdrantCluster) (s : StatefulSet) (wait : Option ℕ)
      → IsGatedSet inp qc s
      → Writes (apply_sts inp q s wait).calls
  unfolding apply_sts
  apply_sts-gated q s wait h = elim (Bool-cases (apply_owned inp.apply (stateful_set s)).1) [
    | inr e ↦ rw e (owned-gated (stateful_set s) h)
    | inl e ↦ elim (Bool-cases (finish_status q inp.status_inputs).failed) [
      | inl f ↦ rw (e, f) both
      | inr f ↦ rw (e, f) both
    ]
  ]
    where
      both :
          Writes (
            (apply_owned inp.apply (stateful_set s)).0 ++ (finish_status q inp.status_inputs).calls)
      both =
          All-append (IsGatedWrite inp qc) _ (finish_status q inp.status_inputs).calls
            (owned-gated (stateful_set s) h) (finish-gated q inp.status_inputs)

  -- Past the guards.
  record IsPast : Type 0 where
    same_fields :
        (live : LiveSts)
        → inp.live ≡ some live
        → sts_immutable_changed inp.equalities live (build_stateful_set inp.sha256 qc) ≡ false
    no_scale_in : (live : LiveSts) → inp.live ≡ some live → is_scale_in qc live ≡ false

  roll_out-gated :
      IsPast
      → tls_misconfigured qc ≡ false
      → Writes (roll_out inp qc inp.live (build_stateful_set inp.sha256 qc)).calls
  unfolding roll_out gate_rollout build_stateful_set
  roll_out-gated past cert = elim (Bool-cases (rollout_in_progress (upgrade_of inp.live))) [
    | inl e ↦ rw e (apply_sts-gated _ _ (some (seconds 15)) (gated refl))
    | inr e ↦ rw e (
        apply_sts-gated qc _ none (
          gated (
            ap (λ n. record (build_stateful_set inp.sha256 qc) { partition = some n })
              (sym (
                still-partition (upgrade_of inp.live) qc.spec.replicas (observe inp.reads qc).1
                  e)))))
  ]
    where
      gated : {s : StatefulSet} → s ≡ gated_set inp qc → IsGatedSet inp qc s
      gated e = record {
        gated = e;
        same_fields = past.same_fields;
        no_scale_in = past.no_scale_in;
        certified = cert;
      }

  warn-gated : Writes (warn_plain qc)
  warn-gated = elim (Bool-cases (auth_without_tls qc)) [ inl e ↦ rw e (tt, tt) | inr e ↦ rw e tt ]

  apply_guarded-gated :
      IsPast → Writes (apply_guarded inp qc inp.live (build_stateful_set inp.sha256 qc)).calls
  unfolding apply_guarded missing_certificate degrade set_condition
  apply_guarded-gated past = elim (Bool-cases (tls_misconfigured qc)) [
    | inl e ↦ rw e (
        sent-gated
          (commit (
            degrade inp.conditions (start (observe inp.reads qc).0)
              Reason.tls_secret_missing)).calls
          (tt, (tt, tt)))
    | inr e ↦
        rw e (All-append (IsGatedWrite inp qc) (warn_plain qc) _ warn-gated (roll_out-gated past e))
  ]

  pause-IsStepped :
      (p : Pass)
      → All (IsStepped (IsGatedStep inp qc)) p.calls
      → All (IsStepped (IsGatedStep inp qc)) (pause_drain p).calls
  pause-IsStepped p h = elim (Option-cases p.cluster.status.drain_status) [
    | inl e ↦ rw e h
    | inr (d, e) ↦ rw e h
  ]

  one_down :
      (live : LiveSts)
      → inp.live ≡ some live
      → sts_immutable_changed inp.equalities live (build_stateful_set inp.sha256 qc) ≡ false
      → is_scale_in qc live ≡ true
      → IsGatedStep inp qc ((drain_inputs inp live).live.spec_replicas - 1)
  one_down live e d i = elim (Option-cases live.spec_replicas) [
    | inl n ↦ absurd (ground (arith, n, i))
    | inr (from, s) ↦ record {
      live = live;
      read = e;
      same_fields = d;
      has = step_has live.spec_replicas qc.spec.replicas i;
      wanted = ground (arith, s, i);
    }
  ]

  guard_sts-gated :
      (o : Option LiveSts)
      → inp.live ≡ o
      → Writes (guard_sts inp qc o (build_stateful_set inp.sha256 qc)).calls
  unfolding guard_sts immutable_drift drain_cycle degrade set_condition
  guard_sts-gated none e =
      subst (λ o. Writes (apply_guarded inp qc o (build_stateful_set inp.sha256 qc)).calls) e
        (apply_guarded-gated (record {
          same_fields = λ live h. absurd (let x = sym e ∙ h in cc);
          no_scale_in = λ live h. absurd (let x = sym e ∙ h in cc);
        }))
  guard_sts-gated (some live) e =
      elim (Bool-cases
        (sts_immutable_changed inp.equalities live (build_stateful_set inp.sha256 qc))) [
          | inl d ↦ rw d (
              sent-gated _ (
                All-append (IsStepped (IsGatedStep inp qc)) _ (update_status _ ∷ [])
                  (pause-IsStepped
                    (degrade inp.conditions (start (observe inp.reads qc).0)
                      Reason.immutable_field_changed)
                    (tt, tt))
                  (tt, tt)))
          | inr d ↦ elim (Bool-cases (is_scale_in qc live)) [
            | inl i ↦
                rw (d, i)
                  (sent-gated _ (
                    drain-IsStepped (IsGatedStep inp qc) inp.conditions _ _ _
                      (one_down live e d i)))
            | inr i ↦ rw (d, i) (passed d i)
          ]
        ]
    where
      mine : (other : LiveSts) → inp.live ≡ some other → live ≡ other
      mine other h = some_injective live other (sym e ∙ h)

      passed :
          sts_immutable_changed inp.equalities live (build_stateful_set inp.sha256 qc) ≡ false
          → is_scale_in qc live ≡ false
          → Writes (apply_guarded inp qc (some live) (build_stateful_set inp.sha256 qc)).calls
      passed d i =
          subst (λ o. Writes (apply_guarded inp qc o (build_stateful_set inp.sha256 qc)).calls) e
            (apply_guarded-gated (record {
              same_fields = λ other h.
                  subst
                    (λ x.
                      sts_immutable_changed inp.equalities x (build_stateful_set inp.sha256 qc)
                      ≡ false)
                    (mine other h) d;
              no_scale_in = λ other h. subst (λ x. is_scale_in qc x ≡ false) (mine other h) i;
            }))

  before-gated :
      (pod : Option Pod) (pdb : Option PodDisruptionBudget)
      → Writes (tried_pod pod ++ stale_budget qc pdb)
  before-gated none none = (tt, tt)
  before-gated none (some b) = tt
  before-gated (some p) none = (tt, (tt, tt))
  before-gated (some p) (some b) = (tt, tt)

  budget-gated : (pdb : Option PodDisruptionBudget) → All (IsGatedChild inp qc) (budget_child pdb)
  budget-gated none = tt
  budget-gated (some b) = (tt, tt)

  proceed-gated :
      (before : List KubeCall) (applied : Applied) (out : Outcome)
      → Writes before
      → Writes applied.0
      → Writes out.calls
      → Writes (proceed before applied out).calls
  proceed-gated before applied out b a o =
      let both = All-append (IsGatedWrite inp qc) before applied.0 b a in
      elim (Bool-cases applied.1) [
        | inl e ↦ rw e (All-append (IsGatedWrite inp qc) (before ++ applied.0) out.calls both o)
        | inr e ↦ rw e both
      ]

  found-gated : Writes (reconcile_found inp qc).calls
  unfolding reconcile_found
  found-gated =
      proceed-gated (first_steps inp qc) (apply_all inp.apply (children_of qc)) _
        (before-gated _ (build_pod_disruption_budget qc))
        (All-gated (children_of qc)
          (tt, (tt, (tt, (tt, budget-gated (build_pod_disruption_budget qc))))))
        (guard_sts-gated inp.live refl)

-- Whatever kubernetes and qdrant answer, a pass applies a StatefulSet only as rendered for the object,
-- with the partition that the rollout allows; and none while the live one differs in an immutable
-- field, while fewer replicas are wanted than it has, or while TLS lacks its certificate. Apart from
-- that it writes a number of pods only where fewer are wanted than the set has, and then one less than
-- it has, while no immutable field differs.
pub reconcile-IsGatedWrite :
    (inp : Inputs) (qc : QdrantCluster)
    → inp.cluster ≡ found qc
    → All (IsGatedWrite inp qc) (reconcile inp).calls
unfolding reconcile
reconcile-IsGatedWrite inp qc e =
    subst (λ l. All (IsGatedWrite inp qc) (reconcile_with inp l).calls) (sym e)
      (unfold reconcile_with in found-gated inp qc)
