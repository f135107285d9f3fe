-- ===== src/Runtime/Dnsbl.antt =====
-- lib/challenge/dnsbl/dnsbl.go and utils/dnsbl.go: block lists asked by DNS, with answers kept for
-- a while.
use wpoven_nobot.Base.{
  text_equality, ltb, eqb, if◌then◌else◌, length, Text, ℕ, ◌+◌, ◌/◌, ◌%◌, Bool, true, false, not,
  ◌&&◌, none, some, List, [], ◌∷◌, ◌++◌,
}
use wpoven_nobot.DecayMap
use wpoven_nobot.DecayMap.{Entry, decay}
use wpoven_nobot.Text.{decimal}
use wpoven_nobot.Time.{Time, Duration}
use wpoven_nobot.Challenge.Data.{issue_challenge_token}
use wpoven_nobot.Challenge.Types.{VerifyResult, result_not_ok, result_ok}
use wpoven_nobot.Challenge.World.{World}
use wpoven_nobot.Challenge.Registration.{Key, Registration}

-- ResponseGood and ResponseUnknown
abbrev pub response_good : ℕ
response_good = 0

abbrev pub response_unknown : ℕ
response_unknown = 255

-- DNSBLResponse.Bad
unfoldable pub bad : ℕ → Bool
bad r = not (eqb r response_good) && not (eqb r response_unknown)

-- `nibbleTable`
abbrev nibble : ℕ → ℕ
nibble n = if ltb n 10 then 48 + n else 87 + n

-- the bytes of an IPv4 address, the last one first
decimal_labels : Text → Text → Text
decimal_labels [] acc = acc
decimal_labels (b ∷ ip) acc = decimal_labels ip (decimal b ++ b'.' ∷ acc)

-- the halves of the bytes of an IPv6 address, the last one first
nibble_labels : Text → Text → Text
nibble_labels [] acc = acc
nibble_labels (b ∷ ip) acc =
    nibble_labels ip (nibble (b % 16) ∷ b'.' ∷ nibble (b / 16) ∷ b'.' ∷ acc)

-- the name that DNSBL.Lookup asks for; four bytes are what To4 leaves
unfoldable pub target_name : Text → Text → Text
unfolding decimal_labels nibble_labels
target_name target ip =
    (if eqb (length ip) 4 then decimal_labels ip [] else nibble_labels ip []) ++ target

-- DNSBL.Lookup; `resolve` gives the last byte of the first address, or no address, or an error
pub data Resolved : Type 0 where
  address_byte : ℕ → Resolved
  no_address resolve_error : Resolved

unfoldable pub dnsbl_lookup : (Text → Resolved) → Text → Text → ℕ
unfolding target_name
dnsbl_lookup resolve target ip = elim (resolve (target_name target ip)) [
  | address_byte b ↦ b
  | no_address ↦ response_unknown
  | resolve_error ↦ response_unknown
]

-- lookup: the kept answer, or a new one, which is kept too where the lookup failed
unfoldable pub cached_lookup :
    (Text → Resolved)
    → Text
    → Time
    → Time
    → Duration
    → Text
    → List (Text × Entry ℕ)
    → ℕ × List (Text × Entry ℕ)
unfolding dnsbl_lookup
cached_lookup resolve target now later decay ip m =
    let (kept, m') = DecayMap.get now (λ x. x) ip m in
    elim kept [
      | some r ↦ (r, m')
      | none ↦ let r = dnsbl_lookup resolve target ip in (r, DecayMap.set later ip r decay m')
    ]

-- IssueChallenge, with the answer of `lookup`
unfoldable pub issue_dnsbl : ℕ → Registration → World → Key → Time → VerifyResult × World
unfolding bad
issue_dnsbl response reg w key expiry =
    if bad response
    then (result_not_ok, issue_challenge_token reg.name key [] expiry false w)
    else (result_ok, issue_challenge_token reg.name key [] expiry true w)
