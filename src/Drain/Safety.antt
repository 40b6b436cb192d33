-- ===== src/Drain/Safety.antt =====
-- Where the moves of a drain plan come from and go to.
use qdrant_operator.Common.{
  ℕ, ◌==◌, ◌≤◌, ltb, leb, Text, true, false, ◌&&◌, ◌||◌, Option, none, some, List, [], ◌∷◌, ◌≡◌,
  refl, Memᴰ, arith, All, All-append, Bool-cases, Option-cases, inl, inr, ◌⊎◌, subst, sort,
  text_leb, if◌then◌else◌,
}
use qdrant_operator.Qdrant.{Peer, ShardInfo, CollectionClusterInfo}
use qdrant_operator.Rebalance.Observation.{find_text, keys, holds, is_member}
use qdrant_operator.Rebalance.Moves.{PlannedMove}
use qdrant_operator.Rebalance.Facts.{is_member-of_mem, holds-of_mem}
use qdrant_operator.Drain.Plan.{
  Load, Draft, best_keeper, holder_count, place_shard, place_shards, place_all, any_transfer,
  plan_peer_drain,
}
use qdrant_operator.Drain.Steps.{
  place_kept, place_dropped, place_blocked, place_here, place_elsewhere, place_unlisted,
  place_listed,
}

-- A keeper that may take the shard.
abbrev pub IsFree : List ShardInfo → ℕ → List Peer → Peer → Type 0
IsFree shards sid keepers k = Memᴰ k keepers × (holds shards sid k.id ≡ false)

abbrev OptionAll : (Peer → Type 0) → Option Peer → Type 0
OptionAll P none = Unit
OptionAll P (some k) = P k

best_keeper-IsFree :
    (shards : List ShardInfo) (sid : ℕ) (load : Load) (all keepers : List Peer) (best : Option Peer)
    → ((k : Peer) → Memᴰ k keepers → Memᴰ k all)
    → OptionAll (IsFree shards sid all) best
    → OptionAll (IsFree shards sid all) (best_keeper shards sid load keepers best)
unfolding best_keeper
best_keeper-IsFree shards sid load all [] best sub h = h
best_keeper-IsFree shards sid load all (k ∷ keepers) best sub h =
    elim (Bool-cases (holds shards sid k.id)) [
      | inl held ↦
          rw held
            (best_keeper-IsFree shards sid load all keepers best (λ x m. sub x (Memᴰ.tail m)) h)
      | inr free ↦ rw free (
          best_keeper-IsFree shards sid load all keepers _ (λ x m. sub x (Memᴰ.tail m))
            (choose best h (sub k (Memᴰ.head refl), free)))
    ]
  where
    choose :
        (b : Option Peer)
        → OptionAll (IsFree shards sid all) b
        → IsFree shards sid all k
        → OptionAll (IsFree shards sid all) (elim b [
          | none ↦ some k
          | some b ↦
              if ltb (load k.id) (load b.id) || (load k.id == load b.id && ltb k.id b.id)
              then some k
              else some b
        ])
    choose none hb hk = hk
    choose (some b) hb hk =
        elim (Bool-cases
          (ltb (load k.id) (load b.id) || (load k.id == load b.id && ltb k.id b.id))) [
            | inl t ↦ rw t hk
            | inr t ↦ rw t hb
          ]

-- With no keeper free, all of them hold the shard.
best_keeper-none :
    (shards : List ShardInfo) (sid : ℕ) (load : Load) (keepers : List Peer) (best : Option Peer)
    → best_keeper shards sid load keepers best ≡ none
    → (best ≡ none) × All (λ (k : Peer). holds shards sid k.id ≡ true) keepers
unfolding best_keeper
best_keeper-none shards sid load [] best e = (e, tt)
best_keeper-none shards sid load (k ∷ keepers) best e = elim (Bool-cases (holds shards sid k.id)) [
  | inl held ↦
      let r = best_keeper-none shards sid load keepers best (rw held at e) in (r.0, (held, r.1))
  | inr free ↦ absurd (taken best (best_keeper-none shards sid load keepers _ (rw free at e)).0)
]
  where
    taken :
        (b : Option Peer)
        → (elim b [
          | none ↦ some k
          | some b ↦
              if ltb (load k.id) (load b.id) || (load k.id == load b.id && ltb k.id b.id)
              then some k
              else some b
        ])
          ≡ none
        → ⊥
    taken none h = ground arith
    taken (some b) h = ground arith

-- A move of a drain plan. It starts from the target, which holds the shard. Either the shard goes to a
-- keeper that does not hold it; or it is dropped, where all keepers and another peer hold it.
pub record IsDrainMove (target : ℕ) (keepers : List Peer)
    (colls : List (Text × CollectionClusterInfo)) (m : PlannedMove) : Type 0 where
  pub cc : CollectionClusterInfo
  pub listed : find_text m.collection colls ≡ some cc
  pub from_target : m.source ≡ target
  pub held : holds cc.shards m.shard_id target ≡ true
  pub plain : m.replicate ≡ false
  pub kept :
      ((m.drop ≡ false)
        × (is_member keepers m.target ≡ true)
        × (holds cc.shards m.shard_id m.target ≡ false))
      ⊎ ((m.drop ≡ true)
          × (2 ≤ holder_count cc.shards m.shard_id)
          × All (λ (k : Peer). holds cc.shards m.shard_id k.id ≡ true) keepers)

module _ (target : ℕ) (keepers : List Peer) (colls : List (Text × CollectionClusterInfo)) where
  place_shard-safe :
      (coll : Text) (cc : CollectionClusterInfo) (sid : ℕ) (d : Draft)
      → find_text coll colls ≡ some cc
      → holds cc.shards sid target ≡ true
      → All (IsDrainMove target keepers colls) d.moves
      → All
          (IsDrainMove target keepers colls)
          (place_shard target keepers coll cc.shards sid d).moves
  place_shard-safe coll cc sid d e on h =
      elim (Option-cases (best_keeper cc.shards sid d.load keepers none)) [
        | inr (k, b) ↦
            let free =
              subst (OptionAll (IsFree cc.shards sid keepers)) b
                (best_keeper-IsFree cc.shards sid d.load keepers keepers none (λ x m. m) tt) in
            rw (place_kept target keepers coll cc.shards sid d k b) (
              All-append (IsDrainMove target keepers colls) d.moves _ h (
                record {
                  cc = cc;
                  listed = e;
                  from_target = refl;
                  held = on;
                  plain = refl;
                  kept = inl (refl, is_member-of_mem k keepers free.0, free.1);
                },
                tt,
              ))
        | inl b ↦ elim (Bool-cases (leb 2 (holder_count cc.shards sid))) [
          | inl two ↦ rw (place_dropped target keepers coll cc.shards sid d b two) (
              All-append (IsDrainMove target keepers colls) d.moves _ h (
                record {
                  cc = cc;
                  listed = e;
                  from_target = refl;
                  held = on;
                  plain = refl;
                  kept = inr (
                    refl,
                    ground (arith, two),
                    (best_keeper-none cc.shards sid d.load keepers none b).1,
                  );
                },
                tt,
              ))
          | inr one ↦ rw (place_blocked target keepers coll cc.shards sid d b one) h
        ]
      ]

  place_shards-safe :
      (coll : Text) (cc : CollectionClusterInfo) (rest : List ShardInfo) (d : Draft)
      → find_text coll colls ≡ some cc
      → ((s : ShardInfo) → Memᴰ s rest → Memᴰ s cc.shards)
      → All (IsDrainMove target keepers colls) d.moves
      → All
          (IsDrainMove target keepers colls)
          (place_shards target keepers coll cc.shards rest d).moves
  place_shards-safe coll cc [] d e sub h = unfold place_shards in h
  place_shards-safe coll cc (s ∷ rest) d e sub h = elim (Bool-cases (s.peer_id == target)) [
    | inl t ↦ rw (place_here target keepers coll cc.shards s rest d t) (
        place_shards-safe coll cc rest _ e (λ x m. sub x (Memᴰ.tail m))
          (place_shard-safe coll cc s.shard_id d e
            (subst (λ q. holds cc.shards s.shard_id q ≡ true) (ground (arith, t))
              (holds-of_mem s cc.shards (sub s (Memᴰ.head refl))))
            h))
    | inr t ↦
        rw (place_elsewhere target keepers coll cc.shards s rest d t)
          (place_shards-safe coll cc rest d e (λ x m. sub x (Memᴰ.tail m)) h)
  ]

  place_all-safe :
      (names : List Text) (d : Draft)
      → All (IsDrainMove target keepers colls) d.moves
      → All (IsDrainMove target keepers colls) (place_all target keepers colls names d).moves
  place_all-safe [] d h = unfold place_all in h
  place_all-safe (name ∷ names) d h = elim (Option-cases (find_text name colls)) [
    | inl e ↦ rw (place_unlisted target keepers colls name names d e) (place_all-safe names d h)
    | inr (cc, e) ↦
        rw (place_listed target keepers colls name names d cc e)
          (place_all-safe names _ (place_shards-safe name cc cc.shards d e (λ x m. m) h))
  ]

-- Every move of a drain plan starts from the peer that goes, which holds the shard; and it puts the
-- shard on a keeper that does not hold it, or drops it where all keepers hold it and two peers at least.
-- While a transfer is in flight there is no move.
pub plan_peer_drain_safe :
    (target : Peer) (keepers : List Peer) (colls : List (Text × CollectionClusterInfo))
    → All (IsDrainMove target.id keepers colls) (plan_peer_drain target keepers colls).moves
      × ((any_transfer colls ≡ false) ⊎ ((plan_peer_drain target keepers colls).moves ≡ []))
unfolding plan_peer_drain
plan_peer_drain_safe target keepers colls = elim (Bool-cases (any_transfer colls)) [
  | inl w ↦ rw w (tt, inr refl)
  | inr w ↦
      rw w (place_all-safe target.id keepers colls (sort text_leb (keys colls)) _ tt, inl refl)
]
