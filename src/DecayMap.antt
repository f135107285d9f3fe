-- ===== src/DecayMap.antt =====
-- utils/decaymap.go: a map whose entries end. Get reads under one lock and deletes under another;
-- what other goroutines do in between is a parameter of the whole operation.
pub mod Laws
pub mod Decay
use wpoven_nobot.Time.{Time, Duration}
use wpoven_nobot.Base.{
  ltb, eqb, if◌then◌else◌, HasTest, lookup, insert, delete, ◌+◌, Option, none, some, List, [], ◌∷◌,
}

pub record Entry {ℓ} (V : Type ℓ) : Type ℓ where
  pub value : V
  pub expiry : Time

module _ {ℓ} {K V : Type ℓ} ⦃e : HasTest K⦄ where
  -- the first half of Get, under the read lock
  unfoldable pub read : K → List (K × Entry V) → Option (Entry V)
  read key m = lookup key m

  -- The second half, under the write lock: the entry is deleted only if its expiry is still the
  -- same. A missing entry reads as the zero value, whose expiry is the zero time.
  unfoldable pub expire : K → Time → List (K × Entry V) → List (K × Entry V)
  expire key expiry m = elim (lookup key m) [
    | none ↦ if eqb 0 expiry then delete key m else m
    | some current ↦ if eqb current.expiry expiry then delete key m else m
  ]

  -- Get, with `meanwhile` for what the others do between the two locks
  unfoldable pub get :
      Time
      → (List (K × Entry V) → List (K × Entry V))
      → K
      → List (K × Entry V)
      → Option V × List (K × Entry V)
  unfolding read expire
  get now meanwhile key m = elim (read key m) [
    | none ↦ (none, m)
    | some entry ↦
        if ltb entry.expiry now
        then (none, expire key entry.expiry (meanwhile m))
        else (some entry.value, m)
  ]

  -- Set
  unfoldable pub set : Time → K → V → Duration → List (K × Entry V) → List (K × Entry V)
  set now key value ttl m = insert key (record { value = value; expiry = now + ttl }) m

  -- Decay: the loop over the entries
  unfoldable pub decay : Time → List (K × Entry V) → List (K × Entry V)
  decay now [] = []
  decay now ((key, entry) ∷ m) =
      let rest = decay now m in if ltb entry.expiry now then rest else (key, entry) ∷ rest
