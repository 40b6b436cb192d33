-- ===== src/Fake/Answer.antt =====
-- What a method of the fake ends with: a value, an error, or a panic of the runtime.
use qdrant_operator.Common.{◌≡◌, ap, ℕ, Text, Option, none, some}
use qdrant_operator.Common.Dict
use qdrant_operator.Common.Dict.{text_key}
use qdrant_operator.Fake.{Fake}

-- The errors of fake.go, with what their messages name. A refused removal names a shard that is in
-- the way, the first in the order of a map; that choice is left out.
pub data Error : Type 0 where
  injected : Text → Error
  collection_exists collection_missing : Text → Error
  not_on_peer : ℕ → ℕ → ℕ → Error
  last_replica : ℕ → ℕ → Error
  shard_remains : ℕ → Error
  snapshot_missing : Text → Text → Error

pub data Answer {ℓ} (A : Type ℓ) : Type ℓ where
  done : A → Answer A
  failed : Error → Answer A
  panic : Answer A

-- `if err := f.ErrOn[method]; err != nil { return err }` in front of a method.
abbrev pub unless_injected {ℓ} : {A : Type ℓ} → Option Text → Answer A → Answer A
unless_injected none a = a
unless_injected (some message) a = failed (injected message)

-- The value, if there is one: what a caller sees who tells no errors apart.
abbrev pub value {ℓ} : {A : Type ℓ} → Answer A → Option A
value (done a) = some a
value (failed err) = none
value panic = none

-- The error that a test has planted for a method.
unfoldable pub injected_on : Fake → Text → Option Text
injected_on f method = Dict.lookup method f.err_on

pub done_injective {ℓ} : {A : Type ℓ} (a b : A) → done a ≡ done b → a ≡ b
done_injective a b h = ap (λ x. elim x [ done y ↦ y | failed err ↦ a | panic ↦ a ]) h
