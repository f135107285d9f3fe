-- ===== src/Examples/Parts.antt =====
-- The theorems on the smaller parts, at examples.
use wpoven_nobot.Base.{text_equality, nat_equality, ℕ, ◌≡◌, some, List, [], ◌∷◌}
use wpoven_nobot.DecayMap
use wpoven_nobot.DecayMap.Laws.{get-set}
use wpoven_nobot.DecayMap.{Entry}

abbrev old_entry : Entry ℕ
old_entry = record { value = 5; expiry = 9 }

abbrev old_map : List (ℕ × Entry ℕ)
old_map = (1, old_entry) ∷ []

get-set_example : (DecayMap.get 20 (λ m. m) 1 (DecayMap.set 10 1 7 30 old_map)).0 ≡ some 7
get-set_example = get-set 10 20 (λ m. m) 1 1 7 30 old_map
