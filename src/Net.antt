-- ===== src/Net.antt =====
-- What the program uses of `net/netip`, and NetworkPrefix of lib/challenge/data.go.
pub mod Laws
use wpoven_nobot.Base.{
  if◌then◌else◌, take, drop, Text, text_eq, ℕ, zero, suc, ◌-◌, Bool, true, false, [], ◌∷◌, ◌++◌,
}

-- `netip.Addr`: the bytes of an address, four or sixteen of them; `invalid` is the zero value. The
-- zone of an address is left out.
pub data Addr : Type 0 where
  invalid : Addr
  ip4 ip6 : Text → Addr

-- `0` ten times and `0xff` twice, in front of an IPv4 address mapped into IPv6
abbrev pub mapped : Text
mapped = 0 ∷ 0 ∷ 0 ∷ 0 ∷ 0 ∷ 0 ∷ 0 ∷ 0 ∷ 0 ∷ 0 ∷ 255 ∷ 255 ∷ []

unfoldable pub unmap : Addr → Addr
unmap invalid = invalid
unmap (ip4 b) = ip4 b
unmap (ip6 b) = if text_eq (take 12 b) mapped then ip4 (drop 12 b) else ip6 b

abbrev pub is4 : Addr → Bool
is4 (ip4 b) = true
is4 _ = false

abbrev zeros : ℕ → Text
zeros zero = []
zeros (suc n) = 0 ∷ zeros n

-- `address.Prefix(8 * n).Addr()` for whole bytes
abbrev pub masked : ℕ → Addr → Addr
masked n invalid = invalid
masked n (ip4 b) = ip4 (take n b ++ zeros (4 - n))
masked n (ip6 b) = ip6 (take n b ++ zeros (16 - n))

abbrev pub as16 : Addr → Text
as16 invalid = zeros 16
as16 (ip4 b) = mapped ++ b
as16 (ip6 b) = b

abbrev pub as_slice : Addr → Text
as_slice invalid = []
as_slice (ip4 b) = b
as_slice (ip6 b) = b

-- a /24 for IPv4, a /64 for IPv6
unfoldable pub network_prefix : Addr → Addr
unfolding unmap
network_prefix a =
    let address = unmap a in if is4 address then masked 3 address else masked 8 address
