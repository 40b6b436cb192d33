-- ===== src/Simulation/Copy.antt =====
-- The copy of a reshard on the fake, page after page.
use qdrant_operator.Common.{
  ℕ, Text, false, none, some, List, [], ◌++◌, ◌≡◌, refl, ap, length, is_empty, if◌then◌else◌,
  text_eq, codes, ==_iff,
}
use qdrant_operator.Common.Dict
use qdrant_operator.Common.Dict.{text_key}
use qdrant_operator.Qdrant.{CollectionInfo}
use qdrant_operator.Api.Cluster.{QdrantCluster}
use qdrant_operator.Api.Collection.{ReshardPhase, ReshardStatus, QdrantCollection}
use qdrant_operator.Fake.{Fake}
use qdrant_operator.Fake.Answer.{done, injected_on}
use qdrant_operator.Fake.Seed.{no_collection, info_of, write_points}
use qdrant_operator.Fake.Points.{Index, at, points_of, page_from, scroll_points}
use qdrant_operator.Fake.Points
use qdrant_operator.Fake.Collections
use qdrant_operator.Collection.Pass.{
  Inputs, CollectionPass, Outcome, set_reshard, commit, cluster_move_active,
}
use qdrant_operator.Collection.Reshard.{
  target_changed, reconcile_reshard, reshard_phase, copy_step, copy_with, after_batch, finish_copy,
  finish_with,
}
use qdrant_operator.Rebalance.SizePlanner.{add64}
use qdrant_operator.Simulation.Collections.{
  perform, run, copy_batch, on_fake, World, round_with, reshard_round,
}

-- No error is planted for the methods that the copy uses.
pub record IsQuiet (f : Fake) : Type 0 where
  pub scroll : injected_on f (codes "ScrollPoints") ≡ none
  pub upsert : injected_on f (codes "UpsertPoints") ≡ none
  pub get : injected_on f (codes "GetCollection") ≡ none

abbrev pub begin : QdrantCollection → CollectionPass
begin col = record { collection = col; calls = [] }

abbrev pub landed : Fake → Outcome → World
landed f out = record { fake = run f out.pass.calls; object = out.pass.collection }

-- A cursor that reads as i: the empty one at the start, or a number.
abbrev pub Starts : (Text → Index) → Text → ℕ → Type 0
Starts decode cursor i = (if is_empty cursor then at 0 else decode cursor) ≡ at i

-- The state with a page written, and the workflow's record replaced.
abbrev pub written : Fake → QdrantCollection → ReshardStatus → List Text → ReshardStatus → World
written f col rs pg rs' =
    let pts = points_of f rs.shadow_collection ++ pg in
    let p = set_reshard (begin col) (some rs') in
    record { fake = write_points f rs.shadow_collection pts (length pts); object = p.collection }

abbrev pub counted : ReshardStatus → List Text → ReshardStatus
counted rs pg = record rs { copied_points = add64 rs.copied_points (length pg) }

pub info-written :
    (f : Fake) (name other : Text) (pts : List Text) (n : ℕ)
    → text_eq name other ≡ false
    → info_of (write_points f name pts n) other ≡ info_of f other
info-written f name other pts n d =
    ap (λ o. elim o as (λ x. CollectionInfo) [ none ↦ no_collection | some v ↦ v ])
      (Dict.lookup-put_other name other _ f.collections d)

module _ (decode : Text → Index) (base : Inputs) (cluster : QdrantCluster) where
  abbrev pub inputs : Fake → Inputs
  inputs f = on_fake decode f base

  scroll-page :
      (f : Fake) (source cursor : Text) (i : ℕ)
      → IsQuiet f
      → Starts decode cursor i
      → scroll_points decode f source cursor copy_batch
        ≡ done (page_from (points_of f source) i copy_batch)
  unfolding scroll_points
  scroll-page f source cursor i q s = rw (q.scroll, s) refl

  pub round-copy :
      (f : Fake) (col : QdrantCollection) (rs : ReshardStatus) (i : ℕ)
      → col.status.reshard ≡ some rs
      → target_changed col rs ≡ false
      → rs.phase ≡ ReshardPhase.copying
      → cluster_move_active cluster ≡ false
      → IsQuiet f
      → Starts decode rs.cursor i
      → reshard_round decode base cluster (record { fake = f; object = col })
        ≡ landed f (
            copy_with
              (inputs f)
              (begin col)
              rs
              (some (page_from (points_of f rs.source_collection) i copy_batch)))
  unfolding reshard_round round_with reconcile_reshard reshard_phase copy_step on_fake run
  round-copy f col rs i e t ph calm q s =
      rw (e, t, ph, calm, scroll-page f rs.source_collection rs.cursor i q s) refl

  upsert-written :
      (f : Fake) (name : Text) (pg : List Text)
      → IsQuiet f
      → Points.upsert_points f name pg
        ≡ done (write_points f name (points_of f name ++ pg) (length (points_of f name ++ pg)))
  unfolding Points.upsert_points
  upsert-written f name pg q = rw q.upsert refl

  get-written :
      (f : Fake) (name other : Text) (pts : List Text) (n : ℕ)
      → IsQuiet f
      → text_eq name other ≡ false
      → Collections.get_collection (write_points f name pts n) other ≡ done (info_of f other)
  unfolding Collections.get_collection injected_on
  get-written f name other pts n q d = rw quiet (ap done (info-written f name other pts n d))
    where
      quiet : Dict.lookup (codes "GetCollection") f.err_on ≡ none
      quiet = unfold injected_on in q.get

  pub land-none :
      (f : Fake) (col : QdrantCollection) (rs : ReshardStatus)
      → IsQuiet f
      → (info_of f rs.source_collection).points_count ≡ rs.total_points
      → landed f (copy_with (inputs f) (begin col) rs (some ([], none))) ≡ record {
        fake = f;
        object =
            (set_reshard
              (begin col)
              (some (record rs { phase = ReshardPhase.swapping }))).collection;
      }
  unfolding copy_with after_batch finish_copy finish_with on_fake run perform commit
      Collections.get_collection
  land-none f col rs q c = rw (q.get, (==_iff _ _).1 c) refl

  pub land-more :
      (f : Fake) (col : QdrantCollection) (rs : ReshardStatus) (pg : List Text) (next : Text)
      → IsQuiet f
      → is_empty pg ≡ false
      → landed f (copy_with (inputs f) (begin col) rs (some (pg, some next)))
        ≡ written f col rs pg (let rs' = counted rs pg in record rs' { cursor = next })
  unfolding copy_with after_batch on_fake run perform commit
  land-more f col rs pg next q e =
      let u = upsert-written f rs.shadow_collection pg q in rw (e, u, u) refl

  pub land-last :
      (f : Fake) (col : QdrantCollection) (rs : ReshardStatus) (pg : List Text)
      → IsQuiet f
      → is_empty pg ≡ false
      → text_eq rs.shadow_collection rs.source_collection ≡ false
      → (info_of f rs.source_collection).points_count ≡ rs.total_points
      → landed f (copy_with (inputs f) (begin col) rs (some (pg, none)))
        ≡ written f col rs pg
            (let rs' = counted rs pg in record rs' { phase = ReshardPhase.swapping })
  unfolding copy_with after_batch finish_copy finish_with on_fake run perform commit
  land-last f col rs pg q e d c =
      let u = upsert-written f rs.shadow_collection pg q in
      let g =
        get-written f rs.shadow_collection rs.source_collection
          (points_of f rs.shadow_collection ++ pg) (length (points_of f rs.shadow_collection ++ pg))
          q d in
      rw (e, u, g, (==_iff _ _).1 c, u) refl
