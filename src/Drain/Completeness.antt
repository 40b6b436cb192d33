-- ===== src/Drain/Completeness.antt =====
-- A drain plan leaves no shard of the target out.
use qdrant_operator.Common.{
  ℕ, ◌==◌, leb, Text, true, false, none, some, List, [], ◌∷◌, ◌++◌, ◌≡◌, refl, Memᴰ, arith,
  Bool-cases, Option-cases, inl, inr, ◌⊎◌, sym, subst, sort, text_leb, ◌∙◌, mem-append_left,
  mem-append_right, mem-sort, ap,
}
use qdrant_operator.Qdrant.{Peer, ShardInfo, CollectionClusterInfo}
use qdrant_operator.Rebalance.Observation.{find_text, keys}
use qdrant_operator.Rebalance.Moves.{PlannedMove}
use qdrant_operator.Drain.Plan.{
  Draft, best_keeper, holder_count, keep_move, drop_move, place_shard, place_shards, place_all,
  plan_peer_drain, load_all, no_load,
}
use qdrant_operator.Rebalance.Completeness.{mem-keys}
use qdrant_operator.Drain.Steps.{
  place_kept, place_dropped, place_blocked, place_here, place_elsewhere, place_unlisted,
  place_listed,
}

module _ (target : ℕ) (keepers : List Peer) (K : Draft → Type 0)
    (step : (coll : Text) (shards : List ShardInfo) (sid : ℕ) (d : Draft)
      → K d
      → K (place_shard target keepers coll shards sid d)) where
  place_shards-keeps :
      (coll : Text) (shards rest : List ShardInfo) (d : Draft)
      → K d
      → K (place_shards target keepers coll shards rest d)
  place_shards-keeps coll shards [] d h = unfold place_shards in h
  place_shards-keeps coll shards (s ∷ rest) d h = elim (Bool-cases (s.peer_id == target)) [
    | inl t ↦
        rw (place_here target keepers coll shards s rest d t)
          (place_shards-keeps coll shards rest _ (step coll shards s.shard_id d h))
    | inr t ↦
        rw (place_elsewhere target keepers coll shards s rest d t)
          (place_shards-keeps coll shards rest d h)
  ]

  place_all-keeps :
      (colls : List (Text × CollectionClusterInfo)) (names : List Text) (d : Draft)
      → K d
      → K (place_all target keepers colls names d)
  place_all-keeps colls [] d h = unfold place_all in h
  place_all-keeps colls (name ∷ names) d h = elim (Option-cases (find_text name colls)) [
    | inl e ↦
        rw (place_unlisted target keepers colls name names d e) (place_all-keeps colls names d h)
    | inr (cc, e) ↦
        rw (place_listed target keepers colls name names d cc e)
          (place_all-keeps colls names _ (place_shards-keeps name cc.shards cc.shards d h))
  ]

-- The draft is blocked, or some move of it takes the shard away.
abbrev IsPlaced : Text → ℕ → Draft → Type 0
IsPlaced coll sid d =
    (d.blocked ≡ true)
    ⊎ ((m : PlannedMove) × Memᴰ m d.moves × (m.collection ≡ coll) × (m.shard_id ≡ sid))

module _ (target : ℕ) (keepers : List Peer) (coll : Text) (shards : List ShardInfo) (sid : ℕ)
    (d : Draft) where
  -- The three outcomes of one shard.
  place-cases :
      ((m : PlannedMove) × (m.collection ≡ coll)
        × (m.shard_id ≡ sid)
        × ((place_shard target keepers coll shards sid d).moves ≡ d.moves ++ (m ∷ []))
        × ((place_shard target keepers coll shards sid d).blocked ≡ d.blocked))
      ⊎ (((place_shard target keepers coll shards sid d).moves ≡ d.moves)
          × ((place_shard target keepers coll shards sid d).blocked ≡ true))
  place-cases = elim (Option-cases (best_keeper shards sid d.load keepers none)) [
    | inr (k, b) ↦
        let e = place_kept target keepers coll shards sid d k b in
        inl (
          keep_move coll sid target k.id,
          refl,
          refl,
          ap (λ (x : Draft). x.moves) e,
          ap (λ (x : Draft). x.blocked) e,
        )
    | inl b ↦ elim (Bool-cases (leb 2 (holder_count shards sid))) [
      | inl two ↦
          let e = place_dropped target keepers coll shards sid d b two in
          inl (
            drop_move coll sid target,
            refl,
            refl,
            ap (λ (x : Draft). x.moves) e,
            ap (λ (x : Draft). x.blocked) e,
          )
      | inr one ↦
          let e = place_blocked target keepers coll shards sid d b one in
          inr (ap (λ (x : Draft). x.moves) e, ap (λ (x : Draft). x.blocked) e)
    ]
  ]

  place-places : IsPlaced coll sid (place_shard target keepers coll shards sid d)
  place-places = elim place-cases [
    | inl (m, c, i, e, b) ↦
        inr (m, subst (Memᴰ m) (sym e) (mem-append_right d.moves (m ∷ []) (Memᴰ.head refl)), c, i)
    | inr (e, b) ↦ inl b
  ]

  place-keeps :
      (c : Text) (i : ℕ)
      → IsPlaced c i d
      → IsPlaced c i (place_shard target keepers coll shards sid d)
  place-keeps c i (inl h) = elim place-cases [
    | inl (m, _, _, e, b) ↦ inl (b ∙ h)
    | inr (e, b) ↦ inl b
  ]
  place-keeps c i (inr (x, mem, at, on)) = elim place-cases [
    | inl (m, _, _, e, b) ↦
        inr (x, subst (Memᴰ x) (sym e) (mem-append_left d.moves (m ∷ []) mem), at, on)
    | inr (e, b) ↦ inl b
  ]

module _ (target : ℕ) (keepers : List Peer) where
  place_shards-places :
      (coll : Text) (shards rest : List ShardInfo) (d : Draft) (s : ShardInfo)
      → Memᴰ s rest
      → (s.peer_id == target) ≡ true
      → IsPlaced coll s.shard_id (place_shards target keepers coll shards rest d)
  place_shards-places coll shards [] d s m t = elim m [ ]
  place_shards-places coll shards (x ∷ rest) d s (Memᴰ.head e) t =
      rw
        (place_here target keepers coll shards x rest d
          (subst (λ (y : ShardInfo). (y.peer_id == target) ≡ true) e t))
        (place_shards-keeps target keepers (IsPlaced coll s.shard_id)
          (λ c sh i b. place-keeps target keepers c sh i b coll s.shard_id) coll shards rest _
          (subst
            (λ (y : ShardInfo).
              IsPlaced coll s.shard_id (place_shard target keepers coll shards y.shard_id d))
            e (place-places target keepers coll shards s.shard_id d)))
  place_shards-places coll shards (x ∷ rest) d s (Memᴰ.tail m) t =
      elim (Bool-cases (x.peer_id == target)) [
        | inl h ↦
            rw (place_here target keepers coll shards x rest d h)
              (place_shards-places coll shards rest _ s m t)
        | inr h ↦
            rw (place_elsewhere target keepers coll shards x rest d h)
              (place_shards-places coll shards rest d s m t)
      ]

  place_all-places :
      (colls : List (Text × CollectionClusterInfo)) (names : List Text) (d : Draft) (coll : Text)
      (cc : CollectionClusterInfo) (s : ShardInfo)
      → Memᴰ coll names
      → find_text coll colls ≡ some cc
      → Memᴰ s cc.shards
      → (s.peer_id == target) ≡ true
      → IsPlaced coll s.shard_id (place_all target keepers colls names d)
  place_all-places colls [] d coll cc s n e m t = elim n [ ]
  place_all-places colls (x ∷ names) d coll cc s (Memᴰ.head h) e m t =
      rw (place_listed target keepers colls x names d cc (sym (ap (λ k. find_text k colls) h) ∙ e))
        (place_all-keeps target keepers (IsPlaced coll s.shard_id)
          (λ c sh i b. place-keeps target keepers c sh i b coll s.shard_id) colls names _
          (subst
            (λ k. IsPlaced coll s.shard_id (place_shards target keepers k cc.shards cc.shards d)) h
            (place_shards-places coll cc.shards cc.shards d s m t)))
  place_all-places colls (x ∷ names) d coll cc s (Memᴰ.tail n) e m t =
      elim (Option-cases (find_text x colls)) [
        | inl f ↦
            rw (place_unlisted target keepers colls x names d f)
              (place_all-places colls names d coll cc s n e m t)
        | inr (c, f) ↦
            rw (place_listed target keepers colls x names d c f)
              (place_all-places colls names _ coll cc s n e m t)
      ]

start_of : Peer → List Peer → List (Text × CollectionClusterInfo) → Draft
start_of target keepers colls = record {
  load = load_all keepers colls (sort text_leb (keys colls)) no_load;
  moves = [];
  blocked = false;
}

abbrev draft_of : Peer → List Peer → List (Text × CollectionClusterInfo) → Draft
draft_of target keepers colls =
    place_all target.id keepers colls (sort text_leb (keys colls)) (start_of target keepers colls)

busy_or_draft :
    (target : Peer) (keepers : List Peer) (colls : List (Text × CollectionClusterInfo))
    → (plan_peer_drain target keepers colls).wait ≡ false
    → ((plan_peer_drain target keepers colls).moves ≡ (draft_of target keepers colls).moves)
      × ((plan_peer_drain target keepers colls).blocked ≡ (draft_of target keepers colls).blocked)
unfolding plan_peer_drain start_of
busy_or_draft target keepers colls w = (ground (arith, w), ground (arith, w))

-- A drain plan that neither waits nor is blocked moves or drops every shard that the target holds.
pub plan_peer_drain_complete :
    (target : Peer) (keepers : List Peer) (colls : List (Text × CollectionClusterInfo))
    (coll : Text) (cc : CollectionClusterInfo) (s : ShardInfo)
    → (plan_peer_drain target keepers colls).wait ≡ false
    → (plan_peer_drain target keepers colls).blocked ≡ false
    → find_text coll colls ≡ some cc
    → Memᴰ s cc.shards
    → s.peer_id ≡ target.id
    → (m : PlannedMove) × Memᴰ m (plan_peer_drain target keepers colls).moves
      × (m.collection ≡ coll)
      × (m.shard_id ≡ s.shard_id)
plan_peer_drain_complete target keepers colls coll cc s w b e m t =
    elim (place_all-places target.id keepers colls (sort text_leb (keys colls))
      (start_of target keepers colls) coll cc s
      (mem-sort text_leb (keys colls) (mem-keys coll colls e)) e m (ground (arith, t))) [
        | inl stuck ↦ absurd (ground (arith, (busy_or_draft target keepers colls w).1, stuck, b))
        | inr (x, mem, c, i) ↦
            (x, subst (Memᴰ x) (sym (busy_or_draft target keepers colls w).0) mem, c, i)
      ]
