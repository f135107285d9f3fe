-- ===== src/Time/Round.antt =====
-- Rounding of instants, as RequestData.Expiration of lib/challenge/data.go uses it.
use native.Mathlib.Nat.{mod-lt, div-add-mod'}
use wpoven_nobot.Time.{round}
use wpoven_nobot.Base.{ltb, if◌then◌else◌, ℕ, ◌+◌, ◌*◌, ◌/◌, ◌%◌, ◌≤◌, ◌<◌, ◌≡◌, ap, ◌∙◌, arith}

pub round_window : (d t : ℕ) → 0 < d → (2 * t < 2 * round d t + d) × (2 * round d t ≤ 2 * t + d)
unfolding round
round_window d t pos = ground (arith, mod-lt t pos)

abbrev nearest : ℕ → ℕ → ℕ
nearest d t = if ltb (t % d + t % d) d then t / d else t / d + 1

add-one_times : (q d : ℕ) → (q + 1) * d ≡ q * d + d
add-one_times q d = omega arith

-- A rounded instant is a multiple of the duration.
pub round_multiple : (d t : ℕ) → 0 < d → round d t ≡ nearest d t * d
unfolding round
round_multiple d t pos = ground (arith, mod-lt t pos, div-add-mod' t d, add-one_times (t / d) d)

next_multiple : (d k j : ℕ) → k < j → k * d + d ≤ j * d
next_multiple d k j h = grind arith

same_multiple :
    (d t k j : ℕ)
    → 2 * t < 2 * (k * d) + d
    → 2 * (k * d) ≤ 2 * t + d
    → 2 * t < 2 * (j * d) + d
    → 2 * (j * d) ≤ 2 * t + d
    → k ≡ j
same_multiple d t k j a b a' b' = ground (arith, next_multiple d k j, next_multiple d j k)

-- The multiple nearest to the instant, halfway values up, is the only one it is rounded to.
pub round_unique :
    (d t k : ℕ) → 0 < d → 2 * t < 2 * (k * d) + d → 2 * (k * d) ≤ 2 * t + d → round d t ≡ k * d
round_unique d t k pos a b =
    let (c, e) = round_window d t pos in
    let m = round_multiple d t pos in
    m ∙ ap (λ (x : ℕ). x * d) (same_multiple d t (nearest d t) k (rw m at c) (rw m at e) a b)
