-- ===== src/Simulation/Effects.antt =====
-- What a shard operation that the fake has accepted leaves behind.
use qdrant_operator.Common.{
  ℕ, ◌==◌, Text, false, Option, none, some, List, [], ◌∷◌, ◌++◌, ◌≡◌, refl, sym, ap, Bool-cases,
  inl, inr, codes,
}
use qdrant_operator.Common.Dict
use qdrant_operator.Common.Dict.{Dict, text_key, number_key}
use qdrant_operator.Qdrant.{CollectionClusterInfo}
use qdrant_operator.Fake.{Fake}
use qdrant_operator.Fake.Answer.{done, done_injective, unless_injected, injected_on}
use qdrant_operator.Fake.Shards
use qdrant_operator.Fake.Shards.{
  moved_text, cluster_with, move_with, drop_with, drop_from, strike, contains, copies_of, state_of,
  copy_on, copies, shard_ids, cluster_of, without, collection_cluster,
}
use qdrant_operator.Fake.Seed.{append_peer}

-- The collection as it is read back.
pub read-cluster :
    (g : Fake) (name : Text) (view : CollectionClusterInfo)
    → collection_cluster g name ≡ done view
    → (pl : Dict ℕ ℕ) × (Dict.lookup name g.placement ≡ some pl) × (view ≡ cluster_of g name pl)
unfolding collection_cluster
read-cluster g name view h =
    go (injected_on g (codes "CollectionCluster")) (Dict.lookup name g.placement) refl h
  where
    go :
        (o : Option Text) (q : Option (Dict ℕ ℕ))
        → Dict.lookup name g.placement ≡ q
        → unless_injected o (cluster_with g name q) ≡ done view
        → (pl : Dict ℕ ℕ) × (Dict.lookup name g.placement ≡ some pl) × (view ≡ cluster_of g name pl)
    go none (some pl) e h = (pl, e, sym (done_injective _ view h))
    go none none e h = cc
    go (some m) q e h = cc

-- What an operation leaves of the state, apart from the placement of one collection and its copies.
pub record IsLike (f g : Fake) : Type 0 where
  pub dead_replicas : g.dead_replicas ≡ f.dead_replicas
  pub shard_states : g.shard_states ≡ f.shard_states

pub state_of-like :
    (f g : Fake) (name : Text) (sid pid : ℕ)
    → IsLike f g
    → state_of g name sid pid ≡ state_of f name sid pid
unfolding state_of
state_of-like f g name sid pid l = rw (l.dead_replicas, l.shard_states) refl

pub move-done :
    (f g : Fake) (name : Text) (sid from to : ℕ)
    → Shards.move_shard f name sid from to ≡ done g
    → (pl : Dict ℕ ℕ) × (g.placement ≡ Dict.put name (Dict.put sid to pl) f.placement)
      × (g.extra_replicas ≡ f.extra_replicas)
      × IsLike f g
unfolding Shards.move_shard
move-done f g name sid from to h =
    go (injected_on f (codes "MoveShard")) (Dict.lookup name f.placement) h
  where
    go :
        (o : Option Text) (q : Option (Dict ℕ ℕ))
        → unless_injected o (move_with f name sid from to q) ≡ done g
        → (pl : Dict ℕ ℕ) × (g.placement ≡ Dict.put name (Dict.put sid to pl) f.placement)
          × (g.extra_replicas ≡ f.extra_replicas)
          × IsLike f g
    go none (some pl) h = elim (Bool-cases (Dict.lookup_or 0 sid pl == from)) [
      | inl t ↦
          let e = sym (done_injective _ g (rw t at h)) in
          (
            pl,
            ap (λ (x : Fake). x.placement) e,
            ap (λ (x : Fake). x.extra_replicas) e,
            record {
              dead_replicas = ap (λ (x : Fake). x.dead_replicas) e;
              shard_states = ap (λ (x : Fake). x.shard_states) e;
            },
          )
      | inr t ↦ absurd (let h' = rw t at h in cc)
    ]
    go none none h = cc
    go (some m) q h = cc

pub replicate-done :
    (f g : Fake) (name : Text) (sid from to : ℕ)
    → Shards.replicate_shard f name sid from to ≡ done g
    → (g.placement ≡ f.placement)
      × (g.extra_replicas ≡ append_peer name sid to f.extra_replicas)
      × IsLike f g
unfolding Shards.replicate_shard
replicate-done f g name sid from to h = go (injected_on f (codes "ReplicateShard")) h
  where
    go :
        (o : Option Text)
        → unless_injected o (
            done (record f {
              extra_replicas = append_peer name sid to f.extra_replicas;
              replicated = f.replicated ++ (moved_text name sid from to ∷ []);
            }))
          ≡ done g
        → (g.placement ≡ f.placement)
          × (g.extra_replicas ≡ append_peer name sid to f.extra_replicas)
          × IsLike f g
    go none h =
        let e = sym (done_injective _ g h) in
        (
          ap (λ (x : Fake). x.placement) e,
          ap (λ (x : Fake). x.extra_replicas) e,
          record {
            dead_replicas = ap (λ (x : Fake). x.dead_replicas) e;
            shard_states = ap (λ (x : Fake). x.shard_states) e;
          },
        )
    go (some m) h = cc

-- The copy is not that of the placement, and is struck from the others.
abbrev pub IsDropped : Fake → Fake → Text → ℕ → ℕ → Type 0
IsDropped f g name sid pid =
    (pl : Dict ℕ ℕ) × (Dict.lookup name f.placement ≡ some pl)
    × ((Dict.lookup_or 0 sid pl == pid) ≡ false)
    × (g.placement ≡ f.placement)
    × (extras : Dict ℕ (List ℕ)) × (g.extra_replicas
        ≡ Dict.put name (strike sid pid extras) f.extra_replicas)

pub drop-IsDropped :
    (f g : Fake) (name : Text) (sid pid : ℕ)
    → Shards.drop_replica f name sid pid ≡ done g
    → IsDropped f g name sid pid
unfolding Shards.drop_replica
drop-IsDropped f g name sid pid h =
    go (injected_on f (codes "DropReplica")) (Dict.lookup name f.placement)
      (Dict.lookup name f.dead_replicas) (Dict.lookup name f.extra_replicas) refl h
  where
    kept :
        (pl : Dict ℕ ℕ) (u v : Option (Dict ℕ (List ℕ)))
        → Dict.lookup name f.placement ≡ some pl
        → (Dict.lookup_or 0 sid pl == pid) ≡ false
        → drop_from f name sid pid u v ≡ done g
        → IsDropped f g name sid pid
    kept pl (some deaths) (some extras) e t h =
        let e' = sym (done_injective _ g h) in
        (
          pl,
          e,
          t,
          ap (λ (x : Fake). x.placement) e',
          extras,
          ap (λ (x : Fake). x.extra_replicas) e',
        )
    kept pl none v e t h = cc
    kept pl (some deaths) none e t h = cc

    go :
        (o : Option Text) (q : Option (Dict ℕ ℕ)) (u v : Option (Dict ℕ (List ℕ)))
        → Dict.lookup name f.placement ≡ q
        → unless_injected o (drop_with f name sid pid q u v) ≡ done g
        → IsDropped f g name sid pid
    go none (some pl) u v e h = elim (Bool-cases (Dict.lookup_or 0 sid pl == pid)) [
      | inl t ↦ absurd (let h' = rw t at h in cc)
      | inr t ↦ kept pl u v e t (rw t at h)
    ]
    go none none u v e h = cc
    go (some m) q u v e h = cc
