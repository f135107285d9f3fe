-- ===== src/DecayMap/Laws.antt =====
-- What Get of utils/decaymap.go answers after Set and Decay, and between its two locks.
use wpoven_nobot.DecayMap.{Entry, get, set, expire, read}
use wpoven_nobot.Time.{Time, Duration}
use wpoven_nobot.Base.{
  ltb, if◌then◌else◌, Bool-cases, HasTest, ◌==◌, lookup, lookup-insert, ◌+◌, ◌≤◌, ◌<◌, ◌≡◌, refl,
  inl, inr, false, Option, none, some, List, eqb, lookup-insert_self, ℕ, true, arith, insert,
}

abbrev pub answer_at {ℓ} : {V : Type ℓ} → Time → Option (Entry V) → Option V
answer_at now none = none
answer_at now (some entry) = if ltb entry.expiry now then none else some entry.value

eqb_over : (end now past : ℕ) → past < now → now ≤ end → eqb end past ≡ false
eqb_over end now past over kept = ground arith

ltb_over : (m n : ℕ) → m < n → ltb m n ≡ true
ltb_over m n h = ground arith

module _ {ℓ} {K V : Type ℓ} ⦃e : HasTest K⦄ where
  pub get_lem :
      (now : Time) (meanwhile : List (K × Entry V) → List (K × Entry V)) (key : K)
      (m : List (K × Entry V))
      → (get now meanwhile key m).0 ≡ answer_at now (lookup key m)
  unfolding get read
  get_lem now meanwhile key m = ground arith

  -- After a value was set for a key, Get answers with it for that key until its time is over and
  -- with nothing afterwards, and for another key it answers what it answered before, whatever is
  -- done to the map between the two locks of Get.
  pub get-set :
      (now later : Time) (meanwhile : List (K × Entry V) → List (K × Entry V)) (key other : K)
      (value : V) (ttl : Duration) (m : List (K × Entry V))
      → (get later meanwhile other (set now key value ttl m)).0 ≡ (
          if key == other
          then (if ltb (now + ttl) later then none else some value)
          else (get later meanwhile other m).0)
  unfolding set
  get-set now later meanwhile key other value ttl m =
      rw
        (
          get_lem later meanwhile other (set now key value ttl m),
          get_lem later meanwhile other m,
          lookup-insert key other (record { value = value; expiry = now + ttl }) m,
        )
        (elim (Bool-cases (key == other)) [ inl b ↦ rw b refl | inr b ↦ rw b refl ])

  get_over :
      (now : Time) (meanwhile : List (K × Entry V) → List (K × Entry V)) (key : K) (entry : Entry V)
      (m : List (K × Entry V))
      → lookup key m ≡ some entry
      → ltb entry.expiry now ≡ true
      → (get now meanwhile key m).1 ≡ expire key entry.expiry (meanwhile m)
  unfolding get read
  get_over now meanwhile key entry m found over = ground arith

  expire_other :
      (key : K) (expiry : Time) (new : Entry V) (m : List (K × Entry V))
      → lookup key m ≡ some new
      → eqb new.expiry expiry ≡ false
      → expire key expiry m ≡ m
  unfolding expire
  expire_other key expiry new m found other = ground arith

  -- A value that another goroutine sets between the two locks of Get, to end no earlier than
  -- the time at which Get reads, is not deleted by Get, although the entry that Get had read is over.
  get_meanwhile :
      (now set_at : Time) (key : K) (value : V) (ttl : Duration) (entry : Entry V)
      (m : List (K × Entry V))
      → lookup key m ≡ some entry
      → entry.expiry < now
      → now ≤ set_at + ttl
      → lookup key (get now (set set_at key value ttl) key m).1
        ≡ some (record { value = value; expiry = set_at + ttl })
  unfolding set
  get_meanwhile now set_at key value ttl entry m found over kept =
      let new : Entry V = record { value = value; expiry = set_at + ttl } in
      let there = lookup-insert_self key new m in
      rw
        (
          get_over now (set set_at key value ttl) key entry m found
              (ltb_over entry.expiry now over),
          expire_other key entry.expiry new (insert key new m) there
              (eqb_over (set_at + ttl) now entry.expiry over kept),
        )
        there
