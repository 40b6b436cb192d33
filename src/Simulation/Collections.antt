-- ===== src/Simulation/Collections.antt =====
-- The collection controller on the fake: its calls are carried out in order, and its reads see the
-- state after the calls before them. Kubernetes accepts every update.
use qdrant_operator.Common.{
  ℕ, zero, suc, Text, Bool, true, false, Option, none, some, List, [], ◌∷◌,
}
use qdrant_operator.Api.Cluster.{QdrantCluster}
use qdrant_operator.Api.Collection.{ReshardStatus, QdrantCollection}
use qdrant_operator.Fake.{Fake}
use qdrant_operator.Fake.Answer.{Answer, done, value}
use qdrant_operator.Fake.Points
use qdrant_operator.Fake.Points.{Index}
use qdrant_operator.Fake.Aliases
use qdrant_operator.Fake.Collections
use qdrant_operator.Collection.Pass.{
  CollectionCall, create_collection, delete_collection, update_aliases, upsert_points, Inputs,
  CollectionPass,
}
use qdrant_operator.Collection.Reshard.{reconcile_reshard}

-- A call to kubernetes leaves the fake as it is.
unfoldable pub perform : Fake → CollectionCall → Answer Fake
perform f (create_collection name spec) = Collections.create_collection f name spec
perform f (delete_collection name) = Collections.delete_collection f name
perform f (update_aliases actions) = Aliases.update_aliases f actions
perform f (upsert_points name points) = Points.upsert_points f name points
perform f _ = done f

abbrev pub after : Fake → Answer Fake → Fake
after f (done g) = g
after f _ = f

-- The state after calls, of which a refused one changes nothing.
unfoldable pub run : Fake → List CollectionCall → Fake
run f [] = f
run f (c ∷ calls) = run (after f (perform f c)) calls

abbrev pub is_done {ℓ} : {A : Type ℓ} → Answer A → Bool
is_done (done a) = true
is_done _ = false

-- Points are read in pages of `reshardCopyBatch`.
abbrev pub copy_batch : ℕ
copy_batch = 128

-- The inputs of a pass: reads and acceptance by the fake, the clock and the conditions from `base`.
unfoldable pub on_fake : (Text → Index) → Fake → Inputs → Inputs
on_fake decode f base = record {
  now = base.now;
  conditions = base.conditions;
  cluster = base.cluster;
  get_collection = λ calls name. value (Collections.get_collection (run f calls) name);
  list_aliases = λ calls. value (Aliases.list_aliases (run f calls));
  scroll_points =
      λ calls name cursor. value (Points.scroll_points decode (run f calls) name cursor copy_batch);
  accepts = λ calls c. is_done (perform (run f calls) c);
}

-- A cluster at rest, and the object with the fake behind it.
pub record World : Type 0 where
  pub fake : Fake
  pub object : QdrantCollection

-- One pass of the workflow that the object's status holds.
unfoldable pub round_with :
    (Text → Index) → Inputs → QdrantCluster → World → Option ReshardStatus → World
round_with decode base cluster w none = w
round_with decode base cluster w (some rs) =
    let p : CollectionPass = record { collection = w.object; calls = [] } in
    let out = reconcile_reshard (on_fake decode w.fake base) p cluster rs in
    record { fake = run w.fake out.pass.calls; object = out.pass.collection }

unfoldable pub reshard_round : (Text → Index) → Inputs → QdrantCluster → World → World
reshard_round decode base cluster w =
    let s = w.object.status in round_with decode base cluster w s.reshard

unfoldable pub rounds : (Text → Index) → Inputs → QdrantCluster → ℕ → World → World
rounds decode base cluster zero w = w
rounds decode base cluster (suc n) w =
    rounds decode base cluster n (reshard_round decode base cluster w)
