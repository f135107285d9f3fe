-- ===== src/Challenge/Key.antt =====
-- lib/challenge/key.go: the key that binds a challenge to its client.
pub mod Laws
use wpoven_nobot.Mime
use wpoven_nobot.Mime.{Header}
use wpoven_nobot.Time.{Time, unix}
use wpoven_nobot.Net.{Addr, unmap, is4, as16, network_prefix}
use wpoven_nobot.Challenge.World.{Request}
use wpoven_nobot.Challenge.Registration.{Key, Registration, State}
use wpoven_nobot.Base.{
  eqb, if◌then◌else◌, Text, ascii, ℕ, zero, suc, ◌+◌, ◌-◌, ◌/◌, ◌%◌, Bool, false, List, [], ◌∷◌,
  ◌++◌,
}

abbrev pub key_size : ℕ
key_size = 32

-- Key.Get, Key.Set and Key.Unset at KeyFlagIsIPv4, the lowest bit of the first byte
abbrev pub get_flag : Key → Bool
get_flag [] = false
get_flag (b ∷ k) = eqb (b % 2) 1

abbrev pub set_flag : Key → Key
set_flag [] = []
set_flag (b ∷ k) = (b - b % 2 + 1) ∷ k

abbrev pub unset_flag : Key → Key
unset_flag [] = []
unset_flag (b ∷ k) = (b - b % 2) ∷ k

-- `sum[0] = 0`
abbrev pub clear_first : Key → Key
clear_first [] = []
clear_first (b ∷ k) = 0 ∷ k

-- the `n` low bytes of a number, the lowest first
abbrev pub little_endian : ℕ → ℕ → Text
little_endian zero x = []
little_endian (suc n) x = x % 256 ∷ little_endian n (x / 256)

header_values : List Text → Text
header_values [] = []
header_values (v ∷ vs) = v ++ 1 ∷ header_values vs

-- the headers that a registration names, in its order
header_part : List Text → Header → Text
header_part [] h = []
header_part (k ∷ ks) h = k ++ 0 ∷ header_values (Mime.values k h) ++ 0 ∷ header_part ks h

-- what is hashed
unfoldable pub key_preimage : State → Registration → Time → Request → Addr → Text
unfolding header_part header_values
key_preimage state reg until r address =
    ascii "challenge"
    ++ 0 ∷ reg.name
    ++ 0 ∷ as16 (network_prefix address)
    ++ 0 ∷ header_part reg.key_headers r.header
    ++ 0 ∷ little_endian 8 (unix until)
    ++ 0 ∷ state.sha256 state.private_key
    ++ 0 ∷ []

-- GetChallengeKeyForRequest
unfoldable pub get_challenge_key_for_request : State → Registration → Time → Request → Addr → Key
unfolding key_preimage
get_challenge_key_for_request state reg until r address =
    let sum = clear_first (state.sha256 (key_preimage state reg until r address)) in
    if is4 (unmap address) then set_flag sum else sum
