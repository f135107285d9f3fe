-- ===== src/Challenge/Headers.antt =====
-- RequestHeaders of lib/challenge/data.go: what backends and checks are told of a request.
use wpoven_nobot.Mime
use wpoven_nobot.Hex
use wpoven_nobot.Base.{
  nat_equality, text_equality, if◌then◌else◌, is_empty, Text, ascii, lookup, insert, ℕ, Option,
  none, some, List, [], ◌∷◌, ◌++◌,
}
use wpoven_nobot.Mime.{Header}
use wpoven_nobot.Net.{unmap}
use wpoven_nobot.Challenge.Data.{state_of}
use wpoven_nobot.Challenge.Types.{VerifyResult, is_ok, state_string, result_string}
use wpoven_nobot.Challenge.World.{RequestData}
use wpoven_nobot.Challenge.Registration.{Registration, State, get_by_id}

-- the headers of one passed challenge; `none` is a panic: of `String` at a challenge that has no
-- state, or for an identifier that is not registered
abbrev challenge_headers : Option Registration → VerifyResult → Option Text → Header → Option Header
challenge_headers none r state h = none
challenge_headers (some c) r none h = none
challenge_headers (some c) r (some state) h = some (
    Mime.set (ascii "X-Away-Challenge-" ++ c.name ++ ascii "-State") state
      (Mime.set (ascii "X-Away-Challenge-" ++ c.name ++ ascii "-Result") (result_string r) h))

abbrev and_then : Option Header → (Header → Option Header) → Option Header
and_then none f = none
and_then (some h) f = f h

-- the loop over ChallengeVerify
unfoldable pub passed_headers :
    State → RequestData → List (ℕ × VerifyResult) → Header → Option Header
passed_headers state d [] h = some h
passed_headers state d ((id, r) ∷ rest) h =
    and_then
      (if is_ok r
        then challenge_headers (get_by_id id state.challenges) r (state_string (state_of id d)) h
        else some h)
      (passed_headers state d rest)

abbrev address_headers : State → RequestData → Header → Header
address_headers state d h =
    if is_empty state.settings.backend_ip_header
    then h
    else Mime.set state.settings.backend_ip_header (state.addr_string (unmap d.remote_address)) (
        if is_empty state.settings.client_ip_header
        then h
        else Mime.del state.settings.client_ip_header h)

abbrev fingerprint_header : Text → Option Text → Header → Header
fingerprint_header name none h = h
fingerprint_header name (some fp) h = Mime.set name fp h

-- `maps.Copy(headers, d.ExtraHeaders)`
abbrev copy_headers : Header → Header → Header
copy_headers [] h = h
copy_headers ((k, vs) ∷ extra) h = copy_headers extra (insert k vs h)

abbrev last_headers : RequestData → Header → Header
last_headers d h = copy_headers d.extra_headers (
    fingerprint_header (ascii "X-TLS-Fingerprint-JA3N") (lookup (ascii "ja3n") d.fp)
      (fingerprint_header (ascii "X-TLS-Fingerprint-JA4") (lookup (ascii "ja4") d.fp) h))

-- RequestData.RequestHeaders; `none` is a panic
unfoldable pub request_headers : State → RequestData → Header → Option Header
unfolding passed_headers
request_headers state d h =
    and_then
      (passed_headers state d d.challenge_verify
        (address_headers state d (Mime.set (ascii "X-Away-Id") (Hex.encode d.id) h)))
      (λ h'. some (last_headers d h'))
