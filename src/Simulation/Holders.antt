-- ===== src/Simulation/Holders.antt =====
-- Which copies the fake reports for a shard.
use qdrant_operator.Common.{
  ℕ, ◌==◌, ==_iff, Text, Bool, true, false, ◌&&◌, List, [], ◌∷◌, ◌++◌, ◌≡◌, refl, sym, subst, Memᴰ,
  arith, any, map, flat_map, Bool-cases, inl, inr,
}
use qdrant_operator.Common.Dict
use qdrant_operator.Common.Dict.{Dict, text_key, number_key}
use qdrant_operator.Qdrant.{active, is_active}
use qdrant_operator.Fake.{Fake}
use qdrant_operator.Fake.Shards.{contains, copies_of, state_of, copy_on, copies}
use qdrant_operator.Rebalance.Observation.{holds, holds_active}

any_none_append {ℓ} :
    {A : Type ℓ} (p : A → Bool) (xs ys : List A)
    → any p xs ≡ false
    → any p ys ≡ false
    → any p (xs ++ ys) ≡ false
any_none_append p [] ys h k = k
any_none_append p (x ∷ xs) ys h k = ground (arith, any_none_append p xs ys)

any_append_right {ℓ} :
    {A : Type ℓ} (p : A → Bool) (xs ys : List A) → any p ys ≡ true → any p (xs ++ ys) ≡ true
any_append_right p [] ys k = k
any_append_right p (x ∷ xs) ys k = ground (arith, any_append_right p xs ys k)

any_append_left {ℓ} :
    {A : Type ℓ} (p : A → Bool) (xs ys : List A) → any p xs ≡ true → any p (xs ++ ys) ≡ true
any_append_left p [] ys k = ground arith
any_append_left p (x ∷ xs) ys k = ground (arith, any_append_left p xs ys)

module _ (f : Fake) (name : Text) (pl : Dict ℕ ℕ) (sid pid : ℕ) where
  map-hold :
      (k : ℕ) (peers : List ℕ)
      → ((k == sid) && contains peers pid) ≡ false
      → holds (map (copy_on f name k) peers) sid pid ≡ false
  unfolding holds copy_on
  map-hold k [] h = refl
  map-hold k (x ∷ peers) h = ground (arith, map-hold k peers)

  map-holds_active :
      (peers : List ℕ)
      → contains peers pid ≡ true
      → state_of f name sid pid ≡ active
      → holds_active (map (copy_on f name sid) peers) sid pid ≡ true
  unfolding holds_active copy_on is_active
  map-holds_active [] h s = ground arith
  map-holds_active (x ∷ peers) h s = elim (Bool-cases (x == pid)) [
    | inl e ↦
        let e' : x ≡ pid = (==_iff x pid).0 e in
        rw (e', (==_iff sid sid).1 refl, (==_iff pid pid).1 refl, s) refl
    | inr e ↦ ground (arith, map-holds_active peers)
  ]

  -- All peers with a copy of a shard.
  abbrev pub holders : ℕ → List ℕ
  holders k = Dict.lookup_or 0 k pl ∷ copies_of f.extra_replicas name k

  copies-hold :
      (k : ℕ) → contains (holders sid) pid ≡ false → holds (copies f name pl k) sid pid ≡ false
  unfolding copies
  copies-hold k e = map-hold k (holders k) (elim (Bool-cases (k == sid)) [
    | inl t ↦ rw t (subst (λ x. contains (holders x) pid ≡ false) (sym ((==_iff k sid).0 t)) e)
    | inr t ↦ rw t refl
  ])

  pub all-hold :
      (sids : List ℕ)
      → contains (holders sid) pid ≡ false
      → holds (flat_map (copies f name pl) sids) sid pid ≡ false
  unfolding holds
  all-hold [] e = refl
  all-hold (k ∷ sids) e =
      any_none_append _ (copies f name pl k) _ (copies-hold k e) (all-hold sids e)

  pub some-holds_active :
      (sids : List ℕ)
      → Memᴰ sid sids
      → contains (holders sid) pid ≡ true
      → state_of f name sid pid ≡ active
      → holds_active (flat_map (copies f name pl) sids) sid pid ≡ true
  unfolding holds_active
  some-holds_active [] m h s = elim m [ ]
  some-holds_active (k ∷ sids) (Memᴰ.head e) h s = any_append_left _ (copies f name pl k) _ (
      subst (λ x. holds_active (copies f name pl x) sid pid ≡ true) e
        (unfold copies in map-holds_active (holders sid) h s))
  some-holds_active (k ∷ sids) (Memᴰ.tail m) h s =
      any_append_right _ (copies f name pl k) _ (some-holds_active sids m h s)
