-- ===== src/Rebalance/Energy.antt =====
-- The sum of the squared shard counts of the peers, and how one move lowers it.
use qdrant_operator.Common.{
  ℕ, suc, ◌+◌, ◌*◌, ◌==◌, ◌≤◌, true, false, ◌&&◌, ◌||◌, List, [], ◌∷◌, ◌≡◌, ◌≢◌, refl, arith,
  if◌then◌else◌, ap,
}
use qdrant_operator.Qdrant.{Peer, ShardInfo}
use qdrant_operator.Rebalance.Observation.{holds, is_member}
use qdrant_operator.Rebalance.Planner.{shards_on}

-- What a finished move does to the placement: the first entry of the shard on the source changes hands.
unfoldable pub relocate : ℕ → ℕ → ℕ → List ShardInfo → List ShardInfo
relocate sid source target [] = []
relocate sid source target (s ∷ shards) =
    if s.shard_id == sid && s.peer_id == source
    then record s { peer_id = target } ∷ shards
    else s ∷ relocate sid source target shards

abbrev pub Distinct : List Peer → Type 0
Distinct [] = Unit
Distinct (p ∷ peers) = (is_member peers p.id ≡ false) × Distinct peers

-- The sum of the squares of a count over the peers.
unfoldable pub energy : (ℕ → ℕ) → List Peer → ℕ
energy f [] = 0
energy f (p ∷ peers) = f p.id * f p.id + energy f peers

module _ (peers : List Peer) (sid source target : ℕ) (known : is_member peers source ≡ true)
    (known' : is_member peers target ≡ true) (apart : source ≢ target) where
  relocate_source :
      (shards : List ShardInfo)
      → holds shards sid source ≡ true
      → suc (shards_on peers (relocate sid source target shards) source)
        ≡ shards_on peers shards source
  unfolding relocate shards_on holds
  relocate_source [] h = ground arith
  relocate_source (s ∷ shards) h = ground (arith, relocate_source shards)

  relocate_target :
      (shards : List ShardInfo)
      → holds shards sid source ≡ true
      → shards_on peers (relocate sid source target shards) target
        ≡ suc (shards_on peers shards target)
  unfolding relocate shards_on holds
  relocate_target [] h = ground arith
  relocate_target (s ∷ shards) h = ground (arith, relocate_target shards)

  relocate_other :
      (pid : ℕ) (shards : List ShardInfo)
      → pid ≢ source
      → pid ≢ target
      → shards_on peers (relocate sid source target shards) pid ≡ shards_on peers shards pid
  unfolding relocate shards_on
  relocate_other pid [] a b = refl
  relocate_other pid (s ∷ shards) a b = ground (arith, relocate_other pid shards a b)

square_up : (x y : ℕ) → x ≡ suc y → x * x ≡ y * y + 2 * y + 1
square_up x y h = rw h (omega arith)

square_down : (x y : ℕ) → suc x ≡ y → x * x + 2 * y ≡ y * y + 1
square_down x y h = rw (← h) (omega arith)

is_member-cons :
    (p : Peer) (ps : List Peer) (a : ℕ) → is_member (p ∷ ps) a ≡ ((p.id == a) || is_member ps a)
unfolding is_member
is_member-cons p ps a = refl

-- Two counts that differ at two peers, one down and one up.
module _ (f g : ℕ → ℕ) (a b : ℕ) (apart : a ≢ b) (down : suc (g a) ≡ f a) (up : g b ≡ suc (f b))
    (same : (q : ℕ) → q ≢ a → q ≢ b → g q ≡ f q) where
  energy_neither :
      (ps : List Peer) → is_member ps a ≡ false → is_member ps b ≡ false → energy g ps ≡ energy f ps
  unfolding energy is_member
  energy_neither [] h k = refl
  energy_neither (p ∷ ps) h k = ground (arith, energy_neither ps, same p.id)

  energy_up :
      (ps : List Peer)
      → Distinct ps
      → is_member ps a ≡ false
      → is_member ps b ≡ true
      → energy g ps ≡ energy f ps + 2 * f b + 1
  unfolding energy
  energy_up [] d h k = unfold is_member in ground arith
  energy_up (p ∷ ps) d h k = ground (
    arith,
    is_member-cons p ps a,
    is_member-cons p ps b,
    energy_neither ps,
    energy_up ps d.1,
    same p.id,
    square_up (g b) (f b) up,
  )

  energy_down :
      (ps : List Peer)
      → Distinct ps
      → is_member ps a ≡ true
      → is_member ps b ≡ false
      → energy g ps + 2 * f a ≡ energy f ps + 1
  unfolding energy
  energy_down [] d h k = unfold is_member in ground arith
  energy_down (p ∷ ps) d h k = ground (
    arith,
    is_member-cons p ps a,
    is_member-cons p ps b,
    energy_neither ps,
    energy_down ps d.1,
    same p.id,
    square_down (g a) (f a) down,
  )

  energy_both :
      (ps : List Peer)
      → Distinct ps
      → is_member ps a ≡ true
      → is_member ps b ≡ true
      → energy g ps + 2 * f a ≡ energy f ps + 2 * f b + 2
  unfolding energy
  energy_both [] d h k = unfold is_member in ground arith
  energy_both (p ∷ ps) d h k = ground (
    arith,
    is_member-cons p ps a,
    is_member-cons p ps b,
    energy_up ps d.1,
    energy_down ps d.1,
    energy_both ps d.1,
    same p.id,
    square_down (g a) (f a) down,
    square_up (g b) (f b) up,
  )

-- A move from a peer to one with at least two shards less lowers the sum of squares by two at least.
pub energy-relocate :
    (peers : List Peer) (shards : List ShardInfo) (sid source target : ℕ)
    → Distinct peers
    → is_member peers source ≡ true
    → is_member peers target ≡ true
    → holds shards sid source ≡ true
    → shards_on peers shards target + 2 ≤ shards_on peers shards source
    → energy (shards_on peers (relocate sid source target shards)) peers + 2
      ≤ energy (shards_on peers shards) peers
energy-relocate peers shards sid source target d k k' h gap = omega (
  arith,
  energy_both (shards_on peers shards) (shards_on peers (relocate sid source target shards)) source
      target apart (relocate_source peers sid source target k k' apart shards h)
      (relocate_target peers sid source target k k' apart shards h)
      (λ q. relocate_other peers sid source target k k' apart q shards) peers d k k',
)
  where
    apart : source ≢ target
    apart e = absurd (omega (arith, ap (shards_on peers shards) e))
