-- ===== src/Simulation/Tests.antt =====
-- The theorems on the controllers that run on the fake, at a small cluster.
use qdrant_operator.Common.{
  ℕ, ◌+◌, ◌/◌, ◌≤◌, ◌<◌, ◌^◌, Text, true, false, Option, none, some, List, [], ◌∷◌, ◌++◌, ◌≡◌, refl,
  length, codes, parse_digits, parse_digits-format_uint, format_uint, ◌==◌, if◌then◌else◌,
  parse_uint, parse_uint-format_uint, arith,
}
use qdrant_operator.Common.Dict
use qdrant_operator.Qdrant.{CollectionClusterInfo}
use qdrant_operator.Api.Cluster.{Kind}
use qdrant_operator.Api.Collection.{ReshardPhase, ReshardStatus, QdrantCollection}
use qdrant_operator.Fake.{Fake, new_fake}
use qdrant_operator.Fake.Answer.{injected_on, done}
use qdrant_operator.Fake.Seed.{set_points, info_of}
use qdrant_operator.Fake.Shards.{cluster_of, state_of, collection_cluster}
use qdrant_operator.Fake.Shards
use qdrant_operator.Fake.Points.{Index, at, below_zero, points_of}
use qdrant_operator.Rebalance.Observation.{Observation, find_text}
use qdrant_operator.Rebalance.Moves.{PlannedMove}
use qdrant_operator.Rebalance.Executor.{active_move_completed, move_record, move_call}
use qdrant_operator.Collection.Pass.{set_reshard}
use qdrant_operator.Simulation.Collections.{World, reshard_round, rounds, copy_batch}
use qdrant_operator.Simulation.Copy.{IsQuiet}
use qdrant_operator.Simulation.Copied.{IsCopied, copy_ends}
use qdrant_operator.Simulation.Swap.{IsRetargeted, swap_round}
use qdrant_operator.Simulation.Moves.{carry_out, IsClean, active_move_completed-carry_out}
use qdrant_operator.Fixtures.{docs, first_peer, second_peer, cluster_with}
use qdrant_operator.Collection.Samples.{workflow, wants, answers}

-- Two points to copy.
abbrev filled : Fake
filled = set_points new_fake docs 2

abbrev copying : ReshardStatus
copying = let rs = workflow ReshardPhase.copying in record rs { total_points = 2 }

abbrev object : QdrantCollection
object = (set_reshard (wants 4) (some copying)).collection

filled-IsQuiet : IsQuiet filled
unfolding injected_on set_points Dict.lookup
filled-IsQuiet = record { scroll = refl; upsert = refl; get = refl }

filled_total : (info_of filled docs).points_count ≡ 2
unfolding set_points Dict.lookup Dict.put qdrant_operator.Common.text_eq
filled_total = refl

filled_small : length (points_of filled docs) < 2 ^ 63
unfolding set_points Dict.lookup Dict.put qdrant_operator.Common.text_eq
    qdrant_operator.Fake.Seed.dummy_points
filled_small = omega arith

-- `json.Unmarshal` into an int that was 0, for numbers without leading zeros or spaces: what is no
-- integer of 64 bits leaves 0.
decode_negative : Text → Index
decode_negative [] = at 0
decode_negative (c ∷ s) =
    if c == b'-'
    then (elim (parse_digits 9223372036854775809 0 s) [
      | none ↦ at 0
      | some n ↦ if n == 0 then at 0 else below_zero n
    ])
    else at 0

decode_int : Text → Index
decode_int t = elim (parse_digits 9223372036854775808 0 t) [
  | none ↦ decode_negative t
  | some n ↦ at n
]

decode_int-format_uint : (n : ℕ) → n < 2 ^ 63 → decode_int (format_uint n) ≡ at n
unfolding decode_int
decode_int-format_uint n h =
    rw (decode_int, parse_digits-format_uint 9223372036854775808 n (omega arith) (omega arith)) refl

copy_ends_example :
    (n : ℕ) × (n ≤ length (points_of filled docs) / copy_batch + 1)
    × IsCopied
        (rounds decode_int answers
          (cluster_with 2 none)
          n
          (record { fake = filled; object = object }))
        docs
        (codes "docs-rs-g2")
        (points_of filled docs)
        (points_of filled (codes "docs-rs-g2") ++ points_of filled docs)
unfolding qdrant_operator.Collection.Pass.cluster_move_active qdrant_operator.Common.text_eq
copy_ends_example =
    copy_ends decode_int answers (cluster_with 2 none) filled object copying refl
      decode_int-format_uint filled-IsQuiet refl refl refl refl refl refl filled_total filled_small

-- The first peer has both shards of a collection.
abbrev uneven : Fake
uneven = record new_fake {
  peers_list = first_peer ∷ second_peer ∷ [];
  placement = (docs, (0, 11) ∷ (1, 11) ∷ []) ∷ [];
}

abbrev evened : Fake
evened = record uneven {
  placement = (docs, (0, 12) ∷ (1, 11) ∷ []) ∷ [];
  moves = codes "docs/0:11->12" ∷ [];
}

abbrev levelling : PlannedMove
levelling = record {
  collection = docs;
  shard_id = 0;
  source = 11;
  target = 12;
  drop = false;
  replicate = false;
  from_count = 2;
  to_count = 0;
}

abbrev view : CollectionClusterInfo
view = cluster_of evened docs ((0, 12) ∷ (1, 11) ∷ [])

abbrev read_back : Observation
read_back = record {
  peers = first_peer ∷ second_peer ∷ [];
  collections = (docs, view) ∷ [];
  rf = [];
  sizes = [];
  sizes_complete = false;
}

levelling-IsClean : IsClean uneven levelling
unfolding state_of Dict.lookup qdrant_operator.Qdrant.is_active qdrant_operator.Common.text_eq
levelling-IsClean = record {
  source_small = omega arith;
  target_small = omega arith;
  apart = refl;
  alone = refl;
  lives = refl;
  placed = refl;
}

levelling_done : carry_out uneven (move_call levelling) ≡ done evened
unfolding carry_out move_call Shards.move_shard injected_on Dict.lookup
    qdrant_operator.Common.text_eq Dict.put qdrant_operator.Common.format_uint
    qdrant_operator.Common.format_digits
levelling_done = refl

view_read : collection_cluster evened docs ≡ done view
unfolding collection_cluster injected_on Dict.lookup qdrant_operator.Common.text_eq
view_read = refl

active_move_completed-carry_out_example :
    active_move_completed read_back (move_record 7 levelling Kind.rebalance) ≡ true
unfolding find_text qdrant_operator.Common.text_eq
active_move_completed-carry_out_example =
    active_move_completed-carry_out uneven evened levelling 7 Kind.rebalance read_back view
      levelling-IsClean refl levelling_done view_read refl

-- One alias names the collection, another something else.
abbrev named : Fake
named = record new_fake { aliases = (codes "live", docs) ∷ (codes "old", codes "attic") ∷ [] }

abbrev swapping : ReshardStatus
swapping = workflow ReshardPhase.swapping

abbrev at_swap : QdrantCollection
at_swap = (set_reshard (wants 4) (some swapping)).collection

list_free : injected_on named (codes "ListAliases") ≡ none
unfolding injected_on Dict.lookup
list_free = refl

update_free : injected_on named (codes "UpdateAliases") ≡ none
unfolding injected_on Dict.lookup
update_free = refl

swap_round_example :
    let w : World =
      reshard_round decode_int answers
        (cluster_with 2 none)
        (record { fake = named; object = at_swap }) in
    (w.object.status.reshard ≡ some (workflow ReshardPhase.finalizing))
    × IsRetargeted named.aliases w.fake.aliases (codes "live") (codes "docs-rs-g2")
swap_round_example =
    swap_round decode_int answers (cluster_with 2 none) named at_swap swapping list_free update_free
      refl refl refl
