-- ===== src/Simulation/Moves.antt =====
-- The rebalance lane on the fake: an operation that qdrant has carried out is seen as completed.
use qdrant_operator.Common.{
  ℕ, ◌<◌, ◌^◌, ◌==◌, ==_iff, leb, Text, Bool, true, false, not, ◌||◌, Option, none, some, List, [],
  ◌∷◌, ◌++◌, ◌≡◌, refl, sym, ap, ◌∙◌, subst, Memᴰ, arith, map, mem-sort, Bool-cases, inl, inr,
  parse_uint-format_uint,
}
use qdrant_operator.Common.Dict
use qdrant_operator.Common.Dict.{Dict, text_key, number_key}
use qdrant_operator.Qdrant.{ShardState, active, dead, other, CollectionClusterInfo, is_active}
use qdrant_operator.Api.Cluster.{Kind}
use qdrant_operator.Pass.{
  Call, move_shard, replicate_shard, drop_replica, remove_peer, update_status, update_replicas,
  event,
}
use qdrant_operator.Fake.{Fake}
use qdrant_operator.Fake.Answer.{Answer, done}
use qdrant_operator.Fake.Shards
use qdrant_operator.Fake.Shards.{
  moved_text, cluster_with, move_with, drop_with, drop_from, strike, contains, copies_of, state_of,
  copy_on, copies, shard_ids, cluster_of, without, collection_cluster,
}
use qdrant_operator.Fake.Peers
use qdrant_operator.Simulation.Holders.{holders, all-hold, some-holds_active}
use qdrant_operator.Simulation.Effects.{
  read-cluster, state_of-like, move-done, replicate-done, drop-IsDropped,
}
use qdrant_operator.Rebalance.Observation.{Observation, find_text, holds, holds_active}
use qdrant_operator.Rebalance.Moves.{PlannedMove}
use qdrant_operator.Rebalance.Executor.{is_replicate, active_move_completed, move_call, move_record}

-- A call to kubernetes leaves the fake as it is.
unfoldable pub carry_out : Fake → Call → Answer Fake
carry_out f (move_shard coll sid from to) = Shards.move_shard f coll sid from to
carry_out f (replicate_shard coll sid from to) = Shards.replicate_shard f coll sid from to
carry_out f (drop_replica coll sid pid) = Shards.drop_replica f coll sid pid
carry_out f (remove_peer pid force) = Peers.remove_peer f pid force
carry_out f (update_status s) = done f
carry_out f (update_replicas n) = done f
carry_out f (event r) = done f

mem-keys : (sid : ℕ) (m : Dict ℕ ℕ) → Dict.has sid m ≡ true → Memᴰ sid (map (λ e. e.0) m)
unfolding Dict.lookup
mem-keys sid [] h = absurd (ground arith)
mem-keys sid ((j, v) ∷ m) h = elim (Bool-cases (j == sid)) [
  | inl t ↦ Memᴰ.head (sym ((==_iff j sid).0 t))
  | inr t ↦ Memᴰ.tail (mem-keys sid m (rw (t, Dict.has) at h))
]

mem-shard_ids : (sid : ℕ) (pl : Dict ℕ ℕ) → Dict.has sid pl ≡ true → Memᴰ sid (shard_ids pl)
mem-shard_ids sid pl h = mem-sort leb _ (mem-keys sid pl h)

abbrev peers_from : Option (List ℕ) → List ℕ
peers_from o = elim o [ none ↦ [] | some v ↦ v ]

copies_of-put :
    (name : Text) (sid : ℕ) (xs : List ℕ) (inner : Dict ℕ (List ℕ))
    (m : Dict Text (Dict ℕ (List ℕ)))
    → copies_of (Dict.put name (Dict.put sid xs inner) m) name sid ≡ xs
copies_of-put name sid xs inner m =
    ap
      (λ o.
        peers_from (Dict.lookup sid (elim o as (λ x. Dict ℕ (List ℕ)) [ none ↦ [] | some v ↦ v ])))
      (Dict.lookup-put_same name (Dict.put sid xs inner) m)
    ∙ ap peers_from (Dict.lookup-put_same sid xs inner)

contains-append : (pid : ℕ) (peers : List ℕ) → contains (peers ++ (pid ∷ [])) pid ≡ true
contains-append pid [] = ground (arith, ==_iff pid pid)
contains-append pid (x ∷ peers) = ground (arith, contains-append pid peers)

some_injective {ℓ} : {A : Type ℓ} (a b : A) → some a ≡ some b → a ≡ b
some_injective a b h = ap (λ x. elim x [ some y ↦ y | none ↦ a ]) h

neither : (a b : Bool) → a ≡ false → b ≡ false → (a || b) ≡ false
neither a b h k = ground arith

either : (a b : Bool) → a ≡ true → (a || b) ≡ true
either a b h = ground arith

not-true : (b : Bool) → not b ≡ true → b ≡ false
not-true b h = ground arith

abbrev is_there : Option ℕ → Bool
is_there o = elim o [ none ↦ false | some v ↦ true ]

contains-without : (pid : ℕ) (peers : List ℕ) → contains (without pid peers) pid ≡ false
contains-without pid [] = refl
contains-without pid (x ∷ peers) = ground (arith, contains-without pid peers)

module _ (g : Fake) (name : Text) (view : CollectionClusterInfo) (sid pid : ℕ)
    (read : collection_cluster g name ≡ done view) where
  not_held :
      ((pl : Dict ℕ ℕ)
        → Dict.lookup name g.placement ≡ some pl
        → contains (holders g name pl sid pid sid) pid ≡ false)
      → holds view.shards sid pid ≡ false
  not_held free =
      let r = read-cluster g name view read in
      rw r.2 (all-hold g name r.0 sid pid (shard_ids r.0) (free r.0 r.1))

  held_active :
      Dict.has sid (Dict.lookup_or [] name g.placement) ≡ true
      → ((pl : Dict ℕ ℕ)
          → Dict.lookup name g.placement ≡ some pl
          → contains (holders g name pl sid pid sid) pid ≡ true)
      → state_of g name sid pid ≡ active
      → holds_active view.shards sid pid ≡ true
  held_active known there lives =
      let r = read-cluster g name view read in
      rw r.2 (
        some-holds_active g name r.0 sid pid (shard_ids r.0)
          (mem-shard_ids sid r.0 (rw (r.1, Dict.lookup_or) at known)) (there r.0 r.1) lives)

-- A move that has no copy of the shard left on its source, to a target that is a live peer.
pub record IsClean (f : Fake) (mv : PlannedMove) : Type 0 where
  pub source_small : mv.source < 2 ^ 64
  pub target_small : mv.target < 2 ^ 64
  pub apart : (mv.target == mv.source) ≡ false
  pub alone :
      (mv.drop
        || (mv.replicate
            || not (contains (copies_of f.extra_replicas mv.collection mv.shard_id) mv.source)))
      ≡ true
  pub lives : (mv.drop || is_active (state_of f mv.collection mv.shard_id mv.target)) ≡ true
  pub placed : Dict.has mv.shard_id (Dict.lookup_or [] mv.collection f.placement) ≡ true

-- What the executor looks at: whether the source still has the shard, and the target has it live.
abbrev IsSeen : CollectionClusterInfo → PlannedMove → Type 0
IsSeen view mv =
    ((mv.drop || not mv.replicate) ≡ true → holds view.shards mv.shard_id mv.source ≡ false)
    × (mv.drop ≡ false → holds_active view.shards mv.shard_id mv.target ≡ true)

seen-completed :
    (obs : Observation) (mv : PlannedMove) (now : ℕ) (kind : Kind) (view : CollectionClusterInfo)
    → mv.source < 2 ^ 64
    → mv.target < 2 ^ 64
    → is_replicate kind ≡ mv.replicate
    → find_text mv.collection obs.collections ≡ some view
    → IsSeen view mv
    → active_move_completed obs (move_record now mv kind) ≡ true
unfolding active_move_completed move_record
seen-completed obs mv now kind view s t k e h = elim (Bool-cases mv.drop) [
  | inl d ↦
      rw (e, active_move_completed, d, parse_uint-format_uint mv.source s, h.0 (rw d refl)) refl
  | inr d ↦ elim (Bool-cases mv.replicate) [
    | inl r ↦ rw (e, active_move_completed, d, k, r, parse_uint-format_uint mv.target t, h.1 d) refl
    | inr r ↦
        rw
          (
            e,
            active_move_completed,
            d,
            k,
            r,
            parse_uint-format_uint mv.source s,
            parse_uint-format_uint mv.target t,
            h.1 d,
            h.0 (rw (d, r) refl),
          )
          refl
  ]
]

is_active_sound : (s : ShardState) → is_active s ≡ true → s ≡ active
unfolding is_active
is_active_sound active h = refl
is_active_sound dead h = cc
is_active_sound (other t) h = cc

live-state :
    (f : Fake) {mv : PlannedMove}
    → IsClean f mv
    → mv.drop ≡ false
    → state_of f mv.collection mv.shard_id mv.target ≡ active
live-state f {mv} c d =
    is_active_sound (state_of f mv.collection mv.shard_id mv.target) (rw d at c.lives)

module _ (f g : Fake) (mv : PlannedMove) (view : CollectionClusterInfo)
    (read : collection_cluster g mv.collection ≡ done view) where
  abbrev name : Text
  name = mv.collection

  abbrev sid : ℕ
  sid = mv.shard_id

  abbrev held_by : Dict ℕ ℕ → List ℕ → ℕ → Bool
  held_by pl extras pid = (Dict.lookup_or 0 sid pl == pid) || contains extras pid

  drop-IsSeen : mv.drop ≡ true → Shards.drop_replica f name sid mv.source ≡ done g → IsSeen view mv
  drop-IsSeen d h =
      let r = drop-IsDropped f g name sid mv.source h in
      let extras : copies_of g.extra_replicas name sid
          ≡ without mv.source (Dict.lookup_or [] sid r.4) =
        ap (λ m. copies_of m name sid) r.5 ∙ copies_of-put name sid _ r.4 f.extra_replicas in
      let free : (pl : Dict ℕ ℕ)
          → Dict.lookup name g.placement ≡ some pl
          → contains (holders g name pl sid mv.source sid) mv.source ≡ false =
        λ pl e.
          ap (λ xs. held_by pl xs mv.source) extras
          ∙ neither _ _
              (subst (λ m. (Dict.lookup_or 0 sid m == mv.source) ≡ false)
                (some_injective r.0 pl (sym r.1 ∙ ap (λ m. Dict.lookup name m) (sym r.3) ∙ e)) r.2)
              (contains-without mv.source (Dict.lookup_or [] sid r.4)) in
      (λ x. not_held g name view sid mv.source read free, λ x. absurd (let y = sym x ∙ d in cc))

  replicate-IsSeen :
      IsClean f mv
      → mv.drop ≡ false
      → mv.replicate ≡ true
      → Shards.replicate_shard f name sid mv.source mv.target ≡ done g
      → IsSeen view mv
  replicate-IsSeen c d t h =
      let r = replicate-done f g name sid mv.source mv.target h in
      let extras : copies_of g.extra_replicas name sid
          ≡ copies_of f.extra_replicas name sid ++ (mv.target ∷ []) =
        ap (λ m. copies_of m name sid) r.1
        ∙ copies_of-put name sid _ (Dict.lookup_or [] name f.extra_replicas) f.extra_replicas in
      let there : (pl : Dict ℕ ℕ)
          → Dict.lookup name g.placement ≡ some pl
          → contains (holders g name pl sid mv.target sid) mv.target ≡ true =
        λ pl e.
          ap (λ xs. held_by pl xs mv.target) extras
          ∙ ground (arith, contains-append mv.target (copies_of f.extra_replicas name sid)) in
      (
        λ x. absurd (let y = rw (d, t) at x in cc),
        λ x.
            held_active g name view sid mv.target read (rw r.0 c.placed) there
              (state_of-like f g name sid mv.target r.2 ∙ live-state f c d),
      )

  move-IsSeen :
      IsClean f mv
      → mv.drop ≡ false
      → mv.replicate ≡ false
      → Shards.move_shard f name sid mv.source mv.target ≡ done g
      → IsSeen view mv
  move-IsSeen c d t h =
      let r = move-done f g name sid mv.source mv.target h in
      let here : Dict.lookup name g.placement ≡ some (Dict.put sid mv.target r.0) =
        ap (λ m. Dict.lookup name m) r.1 ∙ Dict.lookup-put_same name _ f.placement in
      let on : (pl : Dict ℕ ℕ)
          → Dict.lookup name g.placement ≡ some pl
          → Dict.lookup_or 0 sid pl ≡ mv.target =
        λ pl e.
          ap (λ m. Dict.lookup_or 0 sid m) (some_injective pl _ (sym e ∙ here))
          ∙ ap (λ o. elim o as (λ x. ℕ) [ none ↦ 0 | some v ↦ v ])
              (Dict.lookup-put_same sid mv.target r.0) in
      let alone : contains (copies_of f.extra_replicas name sid) mv.source ≡ false =
        not-true _ (rw (d, t) at c.alone) in
      let extras : (pid : ℕ)
          → contains (copies_of g.extra_replicas name sid) pid
            ≡ contains (copies_of f.extra_replicas name sid) pid =
        λ pid. ap (λ m. contains (copies_of m name sid) pid) r.2 in
      (
        λ x. not_held g name view sid mv.source read (λ pl e.
            neither _ _ (ap (λ n. n == mv.source) (on pl e) ∙ c.apart) (extras mv.source ∙ alone)),
        λ x.
            held_active g name view sid mv.target read
              (ap
                  (λ o.
                    is_there
                      (Dict.lookup sid (elim o as (λ y. Dict ℕ ℕ) [ none ↦ [] | some v ↦ v ])))
                  here
                ∙ ap is_there (Dict.lookup-put_same sid mv.target r.0))
              (λ pl e.
                either _ _
                  (ap (λ n. n == mv.target) (on pl e) ∙ (==_iff mv.target mv.target).1 refl))
              (state_of-like f g name sid mv.target r.3 ∙ live-state f c d),
      )

carry-IsSeen :
    (f g : Fake) (mv : PlannedMove) (view : CollectionClusterInfo)
    → IsClean f mv
    → carry_out f (move_call mv) ≡ done g
    → collection_cluster g mv.collection ≡ done view
    → IsSeen view mv
unfolding carry_out move_call
carry-IsSeen f g mv view c h read = elim (Bool-cases mv.drop) [
  | inl d ↦ drop-IsSeen f g mv view read d (rw d at h)
  | inr d ↦ elim (Bool-cases mv.replicate) [
    | inl t ↦ replicate-IsSeen f g mv view read c d t (rw (d, t) at h)
    | inr t ↦ move-IsSeen f g mv view read c d t (rw (d, t) at h)
  ]
]

-- A shard operation of the executor that the fake has accepted is seen as completed by the next
-- observation that has read the collection, if it is the drop of a copy, a replication to a peer where
-- the shard is set to be active, or a move to such a peer from one that has no second copy of the
-- shard. Peers are below 2 ^ 64, the target is not the source, the shard is placed, and the move's kind
-- says whether it replicates.
pub active_move_completed-carry_out :
    (f g : Fake) (mv : PlannedMove) (now : ℕ) (kind : Kind) (obs : Observation)
    (view : CollectionClusterInfo)
    → IsClean f mv
    → is_replicate kind ≡ mv.replicate
    → carry_out f (move_call mv) ≡ done g
    → collection_cluster g mv.collection ≡ done view
    → find_text mv.collection obs.collections ≡ some view
    → active_move_completed obs (move_record now mv kind) ≡ true
active_move_completed-carry_out f g mv now kind obs view c k h read found =
    seen-completed obs mv now kind view c.source_small c.target_small k found
      (carry-IsSeen f g mv view c h read)
