-- ===== src/Challenge/Key/Laws.antt =====
-- What the keys of lib/challenge/key.go depend on.
use wpoven_nobot.Mime
use wpoven_nobot.Mime.{Header}
use wpoven_nobot.Time.{Time}
use wpoven_nobot.Net.{Addr, unmap, is4, network_prefix}
use wpoven_nobot.Challenge.Key.{get_flag, key_preimage, get_challenge_key_for_request, header_part}
use wpoven_nobot.Challenge.World.{Request}
use wpoven_nobot.Challenge.Registration.{Registration, State}
use wpoven_nobot.Base.{All, Text, ◌≡◌, refl, ◌≢◌, List, [], ◌∷◌, arith}

header_part_same :
    (keys : List Text) (h h' : Header)
    → All (λ k. Mime.values k h ≡ Mime.values k h') keys
    → header_part keys h ≡ header_part keys h'
unfolding header_part
header_part_same [] h h' e = refl
header_part_same (k ∷ keys) h h' (e, es) = rw (e, header_part_same keys h h' es)

-- The key is the same for every request of one network, and of one version of IP, that sends the
-- same values of the headers that the registration names; nothing else of the request counts.
pub get_challenge_key_for_request_same :
    (state : State) (reg : Registration) (until : Time) (r r' : Request) (a a' : Addr)
    → network_prefix a ≡ network_prefix a'
    → is4 (unmap a) ≡ is4 (unmap a')
    → All (λ k. Mime.values k r.header ≡ Mime.values k r'.header) reg.key_headers
    → get_challenge_key_for_request state reg until r a
      ≡ get_challenge_key_for_request state reg until r' a'
unfolding get_challenge_key_for_request key_preimage
get_challenge_key_for_request_same state reg until r r' a a' e f h =
    rw (e, f, header_part_same reg.key_headers r.header r'.header h)

-- The flag of a key says which version of IP the client speaks, as long as the hash is not empty.
get_flag-get_challenge_key_for_request :
    (state : State) (reg : Registration) (until : Time) (r : Request) (a : Addr)
    → ((s : Text) → state.sha256 s ≢ [])
    → get_flag (get_challenge_key_for_request state reg until r a) ≡ is4 (unmap a)
unfolding get_challenge_key_for_request
get_flag-get_challenge_key_for_request state reg until r a h =
    ground (arith, h (key_preimage state reg until r a))
