-- ===== src/Simulation/Swap.antt =====
-- The swap of a reshard on the fake: the alias moves, and no other.
use qdrant_operator.Common.{
  Text, Bool, true, false, Option, none, some, List, [], ◌∷◌, ◌++◌, ◌≡◌, refl, sym, ap, ◌∙◌, subst,
  arith, if◌then◌else◌, is_empty, text_eq, text_eq_refl, codes,
}
use qdrant_operator.Common.Dict
use qdrant_operator.Common.Dict.{Dict, text_key}
use qdrant_operator.Qdrant.{AliasAction, create_alias, delete_alias}
use qdrant_operator.Api.Cluster.{QdrantCluster}
use qdrant_operator.Api.Collection.{ReshardPhase, ReshardStatus, QdrantCollection}
use qdrant_operator.Fake.{Fake}
use qdrant_operator.Fake.Answer.{done, injected_on}
use qdrant_operator.Fake.Aliases
use qdrant_operator.Fake.Aliases.{act, act_all}
use qdrant_operator.Fake.Points.{Index}
use qdrant_operator.Collection.Pass.{Inputs, set_reshard, commit}
use qdrant_operator.Collection.Reshard.{
  target_changed, reconcile_reshard, reshard_phase, swap_alias, swap_with, swap_actions,
  verify_swap, verify_with, alias_is,
}
use qdrant_operator.Rebalance.Observation.{find_text}
use qdrant_operator.Simulation.Collections.{perform, run, on_fake, World, round_with, reshard_round}
use qdrant_operator.Simulation.Copy.{begin}

find_text-lookup {ℓ} : {V : Type ℓ} (k : Text) (m : Dict Text V) → find_text k m ≡ Dict.lookup k m
unfolding find_text Dict.lookup
find_text-lookup k [] = refl
find_text-lookup k ((j, v) ∷ m) = ground (arith, find_text-lookup k m)

-- A new target for one alias; the others keep theirs.
abbrev pub IsRetargeted : Dict Text Text → Dict Text Text → Text → Text → Type 0
IsRetargeted m m' alias target =
    (a : Text) → Dict.lookup a m' ≡ (if text_eq alias a then some target else Dict.lookup a m)

swap-IsRetargeted :
    (m : Dict Text Text) (alias target : Text)
    → IsRetargeted m (act_all (swap_actions m alias target) m) alias target
unfolding swap_actions act_all act
swap-IsRetargeted m alias target a = go (find_text alias m)
  where
    fresh : Bool → Option Text
    fresh b = if b then none else Dict.lookup a m

    once :
        (b : Bool)
        → (if b then some target else fresh b) ≡ (if b then some target else Dict.lookup a m)
    once true = refl
    once false = refl

    go :
        (o : Option Text)
        → Dict.lookup a (
            act_all
              (elim o as (λ x. List AliasAction) [
                | some t ↦ delete_alias alias ∷ create_alias alias target ∷ []
                | none ↦ create_alias alias target ∷ []
              ])
              m)
          ≡ (if text_eq alias a then some target else Dict.lookup a m)
    go none = Dict.lookup-put alias a target m
    go (some t) =
        Dict.lookup-put alias a target (Dict.remove alias m)
        ∙ ap (λ o. if text_eq alias a then some target else o) (Dict.lookup-remove alias a m)
        ∙ once (text_eq alias a)

alias_is-retargeted :
    (m m' : Dict Text Text) (alias target : Text)
    → IsRetargeted m m' alias target
    → alias_is m' alias target ≡ true
alias_is-retargeted m m' alias target h =
    let named : (if text_eq alias alias then some target else Dict.lookup alias m) ≡ some target =
      rw (text_eq_refl alias) refl in
    ap (λ o. elim o as (λ x. Bool) [ none ↦ is_empty target | some t ↦ text_eq t target ])
      (find_text-lookup alias m' ∙ h alias ∙ named)
    ∙ text_eq_refl target

-- The fake after an update of its aliases.
abbrev updated : Fake → List AliasAction → Fake
updated f actions = record f {
  aliases = act_all actions f.aliases;
  alias_log = f.alias_log ++ (actions ∷ []);
}

list-updated :
    (f : Fake) (actions : List AliasAction)
    → injected_on f (codes "ListAliases") ≡ none
    → Aliases.list_aliases (updated f actions) ≡ done (act_all actions f.aliases)
unfolding Aliases.list_aliases
list-updated f actions l =
    let l' : injected_on (updated f actions) (codes "ListAliases") ≡ none =
      unfold injected_on in l in
    rw l' refl

list-quiet :
    (f : Fake)
    → injected_on f (codes "ListAliases") ≡ none
    → Aliases.list_aliases f ≡ done f.aliases
unfolding Aliases.list_aliases
list-quiet f l = rw l refl

update-quiet :
    (f : Fake) (actions : List AliasAction)
    → injected_on f (codes "UpdateAliases") ≡ none
    → Aliases.update_aliases f actions ≡ done (updated f actions)
unfolding Aliases.update_aliases
update-quiet f actions u = rw u refl

swap-updated :
    (decode : Text → Index) (base : Inputs) (cluster : QdrantCluster) (f : Fake)
    (col : QdrantCollection) (rs : ReshardStatus)
    → injected_on f (codes "ListAliases") ≡ none
    → injected_on f (codes "UpdateAliases") ≡ none
    → col.status.reshard ≡ some rs
    → target_changed col rs ≡ false
    → rs.phase ≡ ReshardPhase.swapping
    → reshard_round decode base cluster (record { fake = f; object = col }) ≡ record {
      fake = updated f (swap_actions f.aliases col.spec.alias rs.shadow_collection);
      object =
          (set_reshard
            (begin col)
            (some (record rs { phase = ReshardPhase.finalizing }))).collection;
    }
unfolding reshard_round round_with reconcile_reshard reshard_phase swap_alias swap_with verify_swap
    verify_with on_fake run perform commit
swap-updated decode base cluster f col rs l u held wanted phase =
    let actions = swap_actions f.aliases col.spec.alias rs.shadow_collection in
    let e = update-quiet f actions u in
    rw
      (
        held,
        wanted,
        phase,
        list-quiet f l,
        e,
        list-updated f actions l,
        alias_is-retargeted f.aliases _ col.spec.alias rs.shadow_collection
            (swap-IsRetargeted f.aliases col.spec.alias rs.shadow_collection),
        e,
      )
      refl

-- On a fake without planted errors for aliases, the pass of a reshard that swaps goes on to finalize:
-- the alias names the shadow, and every other alias what it named before.
pub swap_round :
    (decode : Text → Index) (base : Inputs) (cluster : QdrantCluster) (f : Fake)
    (col : QdrantCollection) (rs : ReshardStatus)
    → injected_on f (codes "ListAliases") ≡ none
    → injected_on f (codes "UpdateAliases") ≡ none
    → col.status.reshard ≡ some rs
    → target_changed col rs ≡ false
    → rs.phase ≡ ReshardPhase.swapping
    → let w : World = reshard_round decode base cluster (record { fake = f; object = col }) in
      (w.object.status.reshard ≡ some (record rs { phase = ReshardPhase.finalizing }))
      × IsRetargeted f.aliases w.fake.aliases col.spec.alias rs.shadow_collection
swap_round decode base cluster f col rs l u held wanted phase =
    subst
      (λ (w : World).
        (w.object.status.reshard ≡ some (record rs { phase = ReshardPhase.finalizing }))
        × IsRetargeted f.aliases w.fake.aliases col.spec.alias rs.shadow_collection)
      (sym (swap-updated decode base cluster f col rs l u held wanted phase))
      (refl, swap-IsRetargeted f.aliases col.spec.alias rs.shadow_collection)
