-- ===== src/DecayMap/Decay.antt =====
-- Decay of utils/decaymap.go, as Get sees it.
use wpoven_nobot.DecayMap.{Entry, get, decay}
use wpoven_nobot.DecayMap.Laws.{answer_at, get_lem}
use wpoven_nobot.Time.{Time}
use wpoven_nobot.Base.{HasTest, lookup, ◌≤◌, ◌≡◌, refl, none, List, [], ◌∷◌, arith}

module _ {ℓ} {K V : Type ℓ} ⦃e : HasTest K⦄ where
  -- No two entries have one key.
  abbrev pub HasKeysOnce : List (K × Entry V) → Type ℓ
  HasKeysOnce [] = Unit
  HasKeysOnce (entry ∷ m) = (lookup entry.0 m ≡ none) × HasKeysOnce m

  lookup_decayed :
      (now : Time) (key : K) (m : List (K × Entry V))
      → lookup key m ≡ none
      → lookup key (decay now m) ≡ none
  unfolding decay
  lookup_decayed now key [] h = refl
  lookup_decayed now key ((k, entry) ∷ m) h = ground (arith, lookup_decayed now key m)

  answer_at-decay :
      (now later : Time) (key : K) (m : List (K × Entry V))
      → now ≤ later
      → HasKeysOnce m
      → answer_at later (lookup key (decay now m)) ≡ answer_at later (lookup key m)
  unfolding decay
  answer_at-decay now later key [] le h = refl
  answer_at-decay now later key ((k, entry) ∷ m) le (fresh, h) =
      ground
        (arith, answer_at-decay now later key m le h, lookup_decayed now k m fresh, e.agrees k key)

  -- In a map with one entry for a key at most, Decay changes no answer of Get from that time on.
  get-decay :
      (now later : Time) (meanwhile : List (K × Entry V) → List (K × Entry V)) (key : K)
      (m : List (K × Entry V))
      → now ≤ later
      → HasKeysOnce m
      → (get later meanwhile key (decay now m)).0 ≡ (get later meanwhile key m).0
  get-decay now later meanwhile key m le h =
      rw (get_lem later meanwhile key (decay now m), get_lem later meanwhile key m)
        (answer_at-decay now later key m le h)
