-- ===== src/Challenge/State/Cookie.antt =====
-- The cookie of lib/challenge/data.go: what was issued is what is read back.
use wpoven_nobot.Base.{
  text_equality, ◌≡◌, [], Text, lookup, refl, none, List, ◌∷◌, arith, ◌+◌, ◌*◌, ◌≤◌, ◌∙◌, some,
}
use wpoven_nobot.Challenge.State.{
  verify_challenge_state_cookie, verify_challenge_state, StateResult, state_ok, state_err,
  cookies_named, first_verified, cookie_key, issue_challenge_state,
}
use wpoven_nobot.Challenge.World.{World, Token}
use wpoven_nobot.Challenge.Registration.{State}
use wpoven_nobot.Challenge.Types.{Err, no_cookie}
use wpoven_nobot.Time.{Time, second, hour, unix_epoch, unix, date_time}
use wpoven_nobot.Net.{network_prefix}

-- The checked cookie does not depend on the parameter.
cookie_parameter :
    (state : State) (w : World) (c : Text)
    → verify_challenge_state_cookie state w c ≡ verify_challenge_state_cookie state w []
unfolding verify_challenge_state_cookie
cookie_parameter state w c = refl

first_verified_err :
    (state : State) (w : World) (e : Err) (cs : List Text)
    → verify_challenge_state_cookie state w [] ≡ state_err e
    → first_verified state w (state_err e) cs ≡ state_err e
unfolding first_verified
first_verified_err state w e [] h = refl
first_verified_err state w e (c ∷ cs) h =
    ground (arith, cookie_parameter state w c, first_verified_err state w e cs h)

first_verified_at :
    (state : State) (w : World) (last : StateResult) (c : Text) (cs : List Text) (r : StateResult)
    → verify_challenge_state_cookie state w [] ≡ r
    → first_verified state w last (c ∷ cs) ≡ r
unfolding first_verified
first_verified_at state w last c cs (state_ok m) h = ground (arith, cookie_parameter state w c)
first_verified_at state w last c cs (state_err e) h =
    ground (arith, cookie_parameter state w c, first_verified_err state w e cs h)

lookup-cookies_named :
    (name : Text) (cs : List (Text × Text)) → cookies_named name cs ≡ [] → lookup name cs ≡ none
unfolding cookies_named
lookup-cookies_named name [] h = refl
lookup-cookies_named name ((n, v) ∷ cs) h = ground (arith, lookup-cookies_named name cs)

named_at :
    (state : State) (w : World) (named : List Text)
    → cookies_named w.request_data.cookie_name w.request.cookies ≡ named
    → first_verified state w (state_err no_cookie) named ≡ verify_challenge_state_cookie state w []
unfolding first_verified verify_challenge_state_cookie
named_at state w [] h =
    ground (arith, lookup-cookies_named w.request_data.cookie_name w.request.cookies h)
named_at state w (c ∷ cs) h = first_verified_at state w (state_err no_cookie) c cs _ refl

-- Only the first cookie of the name is ever checked, however many there are.
pub verify_challenge_state_first :
    (state : State) (w : World)
    → verify_challenge_state state w ≡ verify_challenge_state_cookie state w []
unfolding verify_challenge_state
verify_challenge_state_first state w =
    named_at state w (cookies_named w.request_data.cookie_name w.request.cookies) refl

-- A cookie value that issueChallengeState made, later than the first day of 1970, and that comes
-- back as the first cookie of the name, to the same host, from the same network, not earlier than it
-- was made and while it is in date, gives the tokens back. `opens` states that unsealing undoes
-- sealing under the same key.
pub verify_challenge_state-issue_challenge_state :
    (state : State)
    (opens : (k v : Text) (t : Token) → state.seal k t ≡ some v → state.unseal k v ≡ some t)
    (until : Time) (w w' : World) (value : Text)
    → unix_epoch * second + 24 * hour ≤ w.now
    → w.now ≤ w'.now
    → w'.now ≤ date_time (unix until)
    → w'.request.host ≡ w.request.host
    → network_prefix w'.request_data.remote_address ≡ network_prefix w.request_data.remote_address
    → issue_challenge_state state until w ≡ some value
    → lookup w'.request_data.cookie_name w'.request.cookies ≡ some value
    → verify_challenge_state state w' ≡ state_ok w.request_data.challenge_map
unfolding issue_challenge_state verify_challenge_state_cookie cookie_key
verify_challenge_state-issue_challenge_state state opens until w w' value a b c d e f g =
    verify_challenge_state_first state w' ∙ ground (arith, opens (cookie_key state w) value _ f, g)
