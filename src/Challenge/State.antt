-- ===== src/Challenge/State.antt =====
-- The cookie that carries the tokens: verifyChallengeState, issueChallengeState and the keys of
-- lib/challenge/data.go, EvaluateChallenges over them, and ResponseHeaders.
pub mod Sound
pub mod Cookie
use wpoven_nobot.Time.{Time, Duration, hour, unix, date_time}
use wpoven_nobot.Net.{as_slice, network_prefix}
use wpoven_nobot.Challenge.Token.{Draw, with_data, evaluate_each}
use wpoven_nobot.Challenge.Data.{expiration}
use wpoven_nobot.Challenge.Types.{
  Err, token_expired, token_not_valid_yet, no_cookie, other, is_no_cookie,
}
use wpoven_nobot.Challenge.World.{
  TokenChallengeMap, Token, challenge_page_sent, error_page_sent, World, emit, set_header,
}
use wpoven_nobot.Challenge.Registration.{Registration, State}
use wpoven_nobot.Base.{
  ltb, if◌then◌else◌, take, is_empty, Text, ascii, ◌==◌, lookup, ℕ, ◌-◌, ◌*◌, true, Option, none,
  some, List, [], ◌∷◌, ◌++◌,
}
use wpoven_nobot.Mime
use wpoven_nobot.Challenge.World.{emit, set_header, challenge_page_sent, error_page_sent}
use wpoven_nobot.Base.{
  nat_equality, text_equality, ltb, if◌then◌else◌, take, Text, ascii, ◌==◌, lookup, ◌-◌, ◌*◌, true,
  Option, none, some, List, [], ◌∷◌, ◌++◌, is_empty, ℕ,
}
use wpoven_nobot.Time.{Time, Duration, hour, unix, date_time}
use wpoven_nobot.Net.{as_slice, network_prefix}
use wpoven_nobot.Challenge.Token.{Draw, with_data, evaluate_each}
use wpoven_nobot.Challenge.Types.{
  Err, token_expired, token_not_valid_yet, no_cookie, other, is_no_cookie,
}
use wpoven_nobot.Challenge.World.{TokenChallengeMap, Token, World}
use wpoven_nobot.Challenge.Registration.{State, Registration}
use wpoven_nobot.Challenge.Data.{expiration}

-- what the keys of the cookie are made of
abbrev host_part : State → World → Text
host_part state w =
    w.request.host ++ 0 ∷ as_slice (network_prefix w.request_data.remote_address) ++ 0 ∷ []

-- RequestData.cookieKey
unfoldable pub cookie_key : State → World → Text
cookie_key state w =
    state.sha256 (host_part state w ++ state.private_key ++ 0 ∷ ascii "1.0/DEFLATE" ++ 0 ∷ [])

-- RequestData.cookieHostKey
unfoldable pub cookie_host_key : State → World → Text
cookie_host_key state w = take 6 (state.sha256 (host_part state w))

pub data StateResult : Type 0 where
  state_ok : TokenChallengeMap → StateResult
  state_err : Err → StateResult

-- the checks of verifyChallengeStateCookie on a token that opened
abbrev check_token : Time → Time → Token → StateResult
check_token expiry_now not_before_now i =
    if ltb (date_time i.expiry) expiry_now
    then state_err token_expired
    else if ltb not_before_now (date_time i.not_before)
    then state_err token_not_valid_yet
    else state_ok i.state

-- RequestData.verifyChallengeStateCookie: the parameter is assigned before it is read, so the first
-- cookie of the name is what is checked
unfoldable pub verify_challenge_state_cookie : State → World → Text → StateResult
unfolding cookie_key
verify_challenge_state_cookie state w cookie =
    elim (lookup w.request_data.cookie_name w.request.cookies) [
      | none ↦ state_err no_cookie
      | some value ↦ elim (state.unseal (cookie_key state w) value) [
        | none ↦ state_err (other (ascii "jwt"))
        | some i ↦ check_token w.now w.now i
      ]
    ]

-- `r.CookiesNamed(name)`
cookies_named : Text → List (Text × Text) → List Text
cookies_named name [] = []
cookies_named name ((n, v) ∷ cs) =
    let rest = cookies_named name cs in if n == name then v ∷ rest else rest

-- the loop of verifyChallengeState: the first cookie that verifies, or else the last error
first_verified : State → World → StateResult → List Text → StateResult
first_verified state w last [] = last
first_verified state w last (c ∷ cs) = elim (verify_challenge_state_cookie state w c) [
  | state_ok m ↦ state_ok m
  | state_err e ↦ first_verified state w (state_err e) cs
]

-- RequestData.verifyChallengeState
unfoldable pub verify_challenge_state : State → World → StateResult
unfolding first_verified cookies_named verify_challenge_state_cookie
verify_challenge_state state w =
    first_verified state w (state_err no_cookie)
      (cookies_named w.request_data.cookie_name w.request.cookies)

-- the tokens that the loop of EvaluateChallenges starts from
unfoldable pub load_challenge_map : State → World → World
unfolding verify_challenge_state
load_challenge_map state w =
    let d = w.request_data in
    elim (verify_challenge_state state w) [
      | state_ok m ↦ with_data w (record d { challenge_map = m })
      | state_err e ↦ with_data w (record d {
        challenge_map = [];
        challenge_map_modified = if is_no_cookie e then d.challenge_map_modified else true;
      })
    ]

-- RequestData.EvaluateChallenges
unfoldable pub evaluate_challenges : State → (Text → Draw) → World → World
unfolding evaluate_each load_challenge_map
evaluate_challenges state draws w =
    evaluate_each state draws state.challenges (load_challenge_map state w)

-- DefaultDuration
abbrev pub default_duration : Duration
default_duration = 24 * 7 * hour

-- RequestData.issueChallengeState; `AddDate(0, 0, -1)` goes back one day
unfoldable pub issue_challenge_state : State → Time → World → Option Text
unfolding cookie_key
issue_challenge_state state until w = state.seal (cookie_key state w) (record {
  state = w.request_data.challenge_map;
  expiry = unix until;
  not_before = unix (w.now - 24 * hour);
  issued_at = unix w.now;
})

-- SetCookie of utils/cookie.go
abbrev pub set_cookie : State → Text → Text → Time → World → World
set_cookie state name value expiry w = record w {
  set_cookies =
      w.set_cookies
      ++ record {
        name = name;
        value = value;
        expires = expiry;
        domain = state.cookie_domain w.request.host;
        path = ascii "/";
      }
        ∷ [];
}

abbrev send_cookie : State → Time → Option Text → World → World
send_cookie state expiry none w = w
send_cookie state expiry (some value) w = set_cookie state w.request_data.cookie_name value expiry w

abbrev vary : Text
vary = ascii "Cookie, Accept, Accept-Encoding, Accept-Language, User-Agent"

abbrev add_via : State → World → World
add_via state w = if is_empty state.settings.main_name then w else record w {
  response =
      Mime.add (ascii "Via")
        (w.request.proto ++ 32 ∷ state.settings.main_name ++ b'@' ∷ state.settings.main_version)
        w.response;
}

-- RequestData.ResponseHeaders
unfoldable pub response_headers : State → World → World
response_headers state w =
    let w' = add_via state (set_header (ascii "Vary") vary w) in
    let until = expiration default_duration w'.request_data in
    if w'.request_data.challenge_map_modified
    then send_cookie state until (issue_challenge_state state until w') w'
    else w'

-- ErrorPage of lib/template.go, less the page that it writes
unfoldable pub error_page : State → ℕ → World → World
error_page state status w =
    let w' =
      set_header (ascii "Cache-Control") (ascii "no-cache, no-store, must-revalidate")
        (set_header (ascii "Content-Type") (ascii "text/html; charset=utf-8") w) in
    emit (error_page_sent status) (response_headers state w')

-- ChallengePage of lib/template.go, less the page that it writes, and less addCachedTags, whose
-- request to the backend is that of FetchTags
unfoldable pub challenge_page : State → ℕ → Registration → World → World
challenge_page state status reg w =
    let w' =
      set_header (ascii "Cache-Control") (ascii "no-cache, no-store, must-revalidate")
        (set_header (ascii "Content-Type") (ascii "text/html; charset=utf-8") w) in
    emit (challenge_page_sent status reg.name) (response_headers state w')
