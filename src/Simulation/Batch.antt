-- ===== src/Simulation/Batch.antt =====
-- What holds of the fake between two batches of a copy, and how a batch keeps it.
use mathlib.Core.List.{append_assoc}
use qdrant_operator.Common.{
  ℕ, ◌+◌, ◌<◌, ◌≤◌, ◌^◌, Text, false, Option, none, some, List, [], ◌++◌, ◌≡◌, refl, ap, ◌∙◌, arith,
  length, drop, text_eq, format_uint, ◌%◌,
}
use qdrant_operator.Common.Dict
use qdrant_operator.Common.Dict.{text_key}
use qdrant_operator.Qdrant.{CollectionInfo}
use qdrant_operator.Api.Collection.{ReshardPhase, ReshardStatus, QdrantCollection}
use qdrant_operator.Fake.{Fake}
use qdrant_operator.Fake.Answer.{injected_on}
use qdrant_operator.Fake.Seed.{info_of, write_points}
use qdrant_operator.Fake.Points.{points_of}
use qdrant_operator.Collection.Reshard.{target_changed}
use qdrant_operator.Simulation.Collections.{copy_batch, World}
use qdrant_operator.Simulation.Pages.{page, page_then, length-page_more}
use qdrant_operator.Simulation.Copy.{IsQuiet, written, counted, info-written}

-- What holds between the pages, with the points below i copied.
pub record IsCopying (f : Fake) (col : QdrantCollection) (rs : ReshardStatus) (i : ℕ) : Type 0 where
  pub held : col.status.reshard ≡ some rs
  pub wanted : target_changed col rs ≡ false
  pub phase : rs.phase ≡ ReshardPhase.copying
  pub quiet : IsQuiet f
  pub apart : text_eq rs.shadow_collection rs.source_collection ≡ false
  pub total : (info_of f rs.source_collection).points_count ≡ rs.total_points
  pub within : i ≤ length (points_of f rs.source_collection)
  pub small : length (points_of f rs.source_collection) < 2 ^ 63
  pub counts : rs.copied_points ≡ i

abbrev pub points_from : Option (List Text) → List Text
points_from o = elim o [ none ↦ [] | some v ↦ v ]

pub points-written_same :
    (f : Fake) (name : Text) (pts : List Text) (n : ℕ)
    → points_of (write_points f name pts n) name ≡ pts
points-written_same f name pts n = ap points_from (Dict.lookup-put_same name pts f.points)

pub points-written_other :
    (f : Fake) (name other : Text) (pts : List Text) (n : ℕ)
    → text_eq name other ≡ false
    → points_of (write_points f name pts n) other ≡ points_of f other
points-written_other f name other pts n d =
    ap points_from (Dict.lookup-put_other name other pts f.points d)

pub IsQuiet-written :
    (f : Fake) (name : Text) (pts : List Text) (n : ℕ)
    → IsQuiet f
    → IsQuiet (write_points f name pts n)
IsQuiet-written f name pts n q = record {
  scroll = unfold injected_on in q.scroll;
  upsert = unfold injected_on in q.upsert;
  get = unfold injected_on in q.get;
}

-- What a written page does to the two collections.
module _ (f : Fake) (col : QdrantCollection) (rs rs' : ReshardStatus) (pg : List Text) where
  pub shadow-written :
      points_of (written f col rs pg rs').fake rs.shadow_collection
      ≡ points_of f rs.shadow_collection ++ pg
  shadow-written = points-written_same f rs.shadow_collection _ 0

  pub source-written :
      text_eq rs.shadow_collection rs.source_collection ≡ false
      → points_of (written f col rs pg rs').fake rs.source_collection
        ≡ points_of f rs.source_collection
  source-written d =
      points-written_other f rs.shadow_collection rs.source_collection
        (points_of f rs.shadow_collection ++ pg) 0 d

pub joined :
    (f : Fake) (col : QdrantCollection) (rs rs' : ReshardStatus) (i : ℕ)
    → text_eq rs.shadow_collection rs.source_collection ≡ false
    → i + copy_batch < length (points_of f rs.source_collection)
    → let w : World = written f col rs (page (points_of f rs.source_collection) i) rs' in
      points_of w.fake rs.shadow_collection
        ++ drop (i + copy_batch) (points_of w.fake rs.source_collection)
      ≡ points_of f rs.shadow_collection ++ drop i (points_of f rs.source_collection)
joined f col rs rs' i d h =
    let pts : List Text = points_of f rs.source_collection in
    rw (shadow-written f col rs rs' (page pts i), source-written f col rs rs' (page pts i) d)
      (append_assoc (points_of f rs.shadow_collection) (page pts i) _
        ∙ ap (λ x. points_of f rs.shadow_collection ++ x) (page_then pts i h))

pub sum_below : (a b n : ℕ) → a + b ≡ n → n < 2 ^ 63 → (a + b) % 18446744073709551616 ≡ n
sum_below a b n e h = omega arith

-- With a full page written the copy goes on behind it.
pub next_page :
    (f : Fake) (col : QdrantCollection) (rs : ReshardStatus) (i : ℕ)
    → IsCopying f col rs i
    → i + copy_batch < length (points_of f rs.source_collection)
    → let pg : List Text = page (points_of f rs.source_collection) i in
      let rs' : ReshardStatus = record (counted rs pg) { cursor = format_uint (i + copy_batch) } in
      let w : World = written f col rs pg rs' in IsCopying w.fake w.object rs' (i + copy_batch)
next_page f col rs i c h =
    let pts : List Text = points_of f rs.source_collection in
    let kept : points_of (written f col rs (page pts i) rs).fake rs.source_collection ≡ pts =
      source-written f col rs rs (page pts i) c.apart in
    record {
      held = refl;
      wanted = c.wanted;
      phase = c.phase;
      quiet =
          IsQuiet-written f rs.shadow_collection (points_of f rs.shadow_collection ++ page pts i) _
            c.quiet;
      apart = c.apart;
      total =
          ap (λ (x : CollectionInfo). x.points_count)
            (info-written f rs.shadow_collection rs.source_collection
              (points_of f rs.shadow_collection ++ page pts i) _ c.apart)
          ∙ c.total;
      within = rw kept (omega arith);
      small = rw kept c.small;
      counts =
          sum_below _ _ _ (ground (arith, c.counts, length-page_more pts i h))
            (omega (arith, c.small));
    }
