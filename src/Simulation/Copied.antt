-- ===== src/Simulation/Copied.antt =====
-- The copy of a reshard on the fake ends, and the shadow has every point of the source.
use qdrant_operator.Common.{
  ℕ, zero, suc, ◌+◌, ◌-◌, ◌*◌, ◌/◌, ◌<◌, ◌≤◌, ◌^◌, Text, false, Option, some, List, [], ◌++◌, ◌≡◌,
  refl, sym, ap, ◌∙◌, arith, length, drop, is_empty-format_uint, text_eq, format_uint, ltb,
  Bool-cases, inl, inr, append-nil_right, length-drop, subst,
}
use qdrant_operator.Common.Dict.{text_key}
use qdrant_operator.Api.Cluster.{QdrantCluster}
use qdrant_operator.Api.Collection.{ReshardPhase, ReshardStatus, QdrantCollection}
use qdrant_operator.Fake.{Fake}
use qdrant_operator.Fake.Seed.{info_of}
use qdrant_operator.Fake.Points.{Index, at, points_of, page_from}
use qdrant_operator.Collection.Pass.{Inputs, cluster_move_active}
use qdrant_operator.Collection.Reshard.{target_changed, copy_with}
use qdrant_operator.Simulation.Collections.{copy_batch, World, reshard_round, rounds}
use qdrant_operator.Simulation.Pages.{
  page, page-more, page-last, page-none, page_rest, length-page_more, drop_all, not_empty,
}
use qdrant_operator.Simulation.Copy.{
  IsQuiet, Starts, inputs, landed, begin, written, counted, round-copy, land-more, land-last,
  land-none,
}
use qdrant_operator.Simulation.Batch.{
  shadow-written, source-written, IsCopying, joined, next_page, sum_below,
}

-- The copy from `source` to `shadow` is over: it counted all points, and the swap is next.
pub record IsCopied (w : World) (source shadow : Text) (pts all : List Text) : Type 0 where
  pub workflow : ReshardStatus
  pub held : w.object.status.reshard ≡ some workflow
  pub swapping : workflow.phase ≡ ReshardPhase.swapping
  pub counted : workflow.copied_points ≡ length pts
  pub copied : points_of w.fake shadow ≡ all
  pub kept : points_of w.fake source ≡ pts

module _ (decode : Text → Index) (base : Inputs) (cluster : QdrantCluster) where
  abbrev round_eq :
      (f : Fake) (col : QdrantCollection) (rs : ReshardStatus) (i : ℕ)
      → cluster_move_active cluster ≡ false
      → IsCopying f col rs i
      → Starts decode rs.cursor i
      → (o : List Text × Option Text)
      → page_from (points_of f rs.source_collection) i copy_batch ≡ o
      → reshard_round decode base cluster (record { fake = f; object = col })
        ≡ landed f (copy_with (inputs decode base cluster f) (begin col) rs (some o))
  round_eq f col rs i calm c s o e =
      round-copy decode base cluster f col rs i c.held c.wanted c.phase calm c.quiet s
      ∙ ap (λ x. landed f (copy_with (inputs decode base cluster f) (begin col) rs (some x))) e

  last_page :
      (f : Fake) (col : QdrantCollection) (rs : ReshardStatus) (i : ℕ)
      → cluster_move_active cluster ≡ false
      → IsCopying f col rs i
      → Starts decode rs.cursor i
      → i < length (points_of f rs.source_collection)
      → length (points_of f rs.source_collection) ≤ i + copy_batch
      → IsCopied
          (reshard_round decode base cluster (record { fake = f; object = col }))
          rs.source_collection
          rs.shadow_collection
          (points_of f rs.source_collection)
          (points_of f rs.shadow_collection ++ drop i (points_of f rs.source_collection))
  last_page f col rs i calm c s h k =
      let pts : List Text = points_of f rs.source_collection in
      let pg : List Text = page pts i in
      let full : length pg ≡ length pts - i = ap length (page_rest pts i k) ∙ length-drop i pts in
      subst
        (λ w.
          IsCopied w rs.source_collection rs.shadow_collection pts
            (points_of f rs.shadow_collection ++ drop i pts))
        (sym (
          round_eq f col rs i calm c s _ (page-last pts i h k)
          ∙ land-last decode base cluster f col rs pg c.quiet (not_empty pg (omega arith)) c.apart
              c.total))
        (record {
          workflow = (let rs' = counted rs pg in record rs' { phase = ReshardPhase.swapping });
          held = refl;
          swapping = refl;
          counted = sum_below _ _ _ (omega (arith, full, c.counts, c.within)) c.small;
          copied =
              shadow-written f col rs rs pg
              ∙ ap (λ x. points_of f rs.shadow_collection ++ x) (page_rest pts i k);
          kept = source-written f col rs rs pg c.apart;
        })

  no_page :
      (f : Fake) (col : QdrantCollection) (rs : ReshardStatus) (i : ℕ)
      → cluster_move_active cluster ≡ false
      → IsCopying f col rs i
      → Starts decode rs.cursor i
      → length (points_of f rs.source_collection) ≤ i
      → IsCopied
          (reshard_round decode base cluster (record { fake = f; object = col }))
          rs.source_collection
          rs.shadow_collection
          (points_of f rs.source_collection)
          (points_of f rs.shadow_collection ++ drop i (points_of f rs.source_collection))
  no_page f col rs i calm c s h =
      let pts : List Text = points_of f rs.source_collection in
      subst
        (λ w.
          IsCopied w rs.source_collection rs.shadow_collection pts
            (points_of f rs.shadow_collection ++ drop i pts))
        (sym (
          round_eq f col rs i calm c s _ (page-none pts i h)
          ∙ land-none decode base cluster f col rs c.quiet c.total))
        (record {
          workflow = record rs { phase = ReshardPhase.swapping };
          held = refl;
          swapping = refl;
          counted = omega (arith, c.counts, c.within);
          copied =
              sym (append-nil_right _)
              ∙ ap (λ x. points_of f rs.shadow_collection ++ x) (sym (drop_all i pts h));
          kept = refl;
        })

  carry :
      (n : ℕ) (source shadow : Text) (v w : World) (pts rest all : List Text)
      → v ≡ w
      → points_of w.fake source ≡ pts
      → points_of w.fake shadow ++ rest ≡ all
      → IsCopied
          (rounds decode base cluster n w)
          source
          shadow
          (points_of w.fake source)
          (points_of w.fake shadow ++ rest)
      → IsCopied (rounds decode base cluster n v) source shadow pts all
  carry n source shadow v w pts rest all e kept got h =
      subst (λ x. IsCopied (rounds decode base cluster n x) source shadow pts all) (sym e)
        (subst (λ x. IsCopied (rounds decode base cluster n w) source shadow x all) kept
          (subst
            (λ x.
              IsCopied (rounds decode base cluster n w) source shadow (points_of w.fake source) x)
            got h))

  copy_from :
      (k i : ℕ) (f : Fake) (col : QdrantCollection) (rs : ReshardStatus)
      → cluster_move_active cluster ≡ false
      → ((n : ℕ) → n < 2 ^ 63 → decode (format_uint n) ≡ at n)
      → IsCopying f col rs i
      → Starts decode rs.cursor i
      → length (points_of f rs.source_collection) ≤ i + k * copy_batch
      → 0 < k
      → (n : ℕ) × (n ≤ k)
        × IsCopied
            (rounds decode base cluster n (record { fake = f; object = col }))
            rs.source_collection
            rs.shadow_collection
            (points_of f rs.source_collection)
            (points_of f rs.shadow_collection ++ drop i (points_of f rs.source_collection))
  unfolding rounds
  copy_from zero i f col rs calm d c s h pos = absurd (omega arith)
  copy_from (suc k) i f col rs calm d c s h pos =
      elim (Bool-cases (ltb i (length (points_of f rs.source_collection)))) [
        | inr over ↦ (1, omega arith, no_page f col rs i calm c s (ground arith))
        | inl left ↦
            elim (Bool-cases (ltb (i + copy_batch) (length (points_of f rs.source_collection)))) [
              | inr last ↦
                  (1, omega arith, last_page f col rs i calm c s (ground arith) (ground arith))
              | inl more ↦
                  let pts : List Text = points_of f rs.source_collection in
                  let pg : List Text = page pts i in
                  let rs' : ReshardStatus = record (counted rs pg) {
                    cursor = format_uint (i + copy_batch);
                  } in
                  let w : World = written f col rs pg rs' in
                  let more' : i + copy_batch < length pts = ground arith in
                  let kept : points_of w.fake rs.source_collection ≡ pts =
                    source-written f col rs rs' pg c.apart in
                  let e : reshard_round decode base cluster (record { fake = f; object = col })
                      ≡ w =
                    round_eq f col rs i calm c s _ (page-more pts i more')
                    ∙ land-more decode base cluster f col rs pg (format_uint (i + copy_batch))
                        c.quiet (not_empty pg (omega (arith, length-page_more pts i more'))) in
                  let r =
                    copy_from k (i + copy_batch) w.fake w.object rs' calm d
                      (next_page f col rs i c more')
                      (rw (is_empty-format_uint (i + copy_batch))
                        (d (i + copy_batch) (omega (arith, c.small))))
                      (rw kept (omega (arith, h))) (omega arith) in
                  (
                    suc r.0,
                    omega arith,
                    carry r.0 rs.source_collection rs.shadow_collection _ w pts _ _ e kept
                        (joined f col rs rs' i c.apart more') r.2,
                  )
            ]
      ]

  -- A reshard that starts to copy on a quiet fake, with no move of the cluster in the way, copies in at
  -- most one pass for every 128 points and one more: then the shadow has its own points with all those
  -- of the source behind them, in order, the source has the points it had, all are counted and the
  -- alias is next to be swapped. Both are different collections, the source's count is that of the
  -- start, the wanted number of shards has not changed, there are fewer points than 2 ^ 63, and a
  -- printed offset below that is read as its number.
  pub copy_ends :
      (f : Fake) (col : QdrantCollection) (rs : ReshardStatus)
      → cluster_move_active cluster ≡ false
      → ((n : ℕ) → n < 2 ^ 63 → decode (format_uint n) ≡ at n)
      → IsQuiet f
      → col.status.reshard ≡ some rs
      → target_changed col rs ≡ false
      → rs.phase ≡ ReshardPhase.copying
      → rs.cursor ≡ []
      → rs.copied_points ≡ 0
      → text_eq rs.shadow_collection rs.source_collection ≡ false
      → (info_of f rs.source_collection).points_count ≡ rs.total_points
      → length (points_of f rs.source_collection) < 2 ^ 63
      → (n : ℕ) × (n ≤ length (points_of f rs.source_collection) / copy_batch + 1)
        × IsCopied
            (rounds decode base cluster n (record { fake = f; object = col }))
            rs.source_collection
            rs.shadow_collection
            (points_of f rs.source_collection)
            (points_of f rs.shadow_collection ++ points_of f rs.source_collection)
  copy_ends f col rs calm d q held wanted phase cursor none_yet apart total small =
      copy_from (length (points_of f rs.source_collection) / copy_batch + 1) 0 f col rs calm d
        (record {
          held = held;
          wanted = wanted;
          phase = phase;
          quiet = q;
          apart = apart;
          total = total;
          within = omega arith;
          small = small;
          counts = none_yet;
        })
        (rw cursor refl) (omega arith) (omega arith)
