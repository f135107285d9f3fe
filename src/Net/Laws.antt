-- ===== src/Net/Laws.antt =====
-- Which clients NetworkPrefix of lib/challenge/data.go takes together.
use wpoven_nobot.Net.{ip4, ip6, mapped, unmap, network_prefix}
use wpoven_nobot.Base.{Text, ℕ, ◌≡◌, refl, ◌↔◌, [], ◌∷◌, ◌++◌, arith}

-- Two IPv4 addresses have one prefix exactly if their first three bytes agree.
network_prefix-ip4 :
    (a b c d a' b' c' d' : ℕ)
    → (network_prefix (ip4 (a ∷ b ∷ c ∷ d ∷ [])) ≡ network_prefix (ip4 (a' ∷ b' ∷ c' ∷ d' ∷ [])))
      ↔ ((a ≡ a') × (b ≡ b') × (c ≡ c'))
unfolding network_prefix unmap
network_prefix-ip4 a b c d a' b' c' d' = (λ e. ground arith, λ (p, q, r). ground arith)

-- An IPv4 address mapped into IPv6 has the prefix of the IPv4 address.
network_prefix-mapped : (b : Text) → network_prefix (ip6 (mapped ++ b)) ≡ network_prefix (ip4 b)
unfolding network_prefix unmap
network_prefix-mapped b = refl
