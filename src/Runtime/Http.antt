-- ===== src/Runtime/Http.antt =====
-- lib/challenge/http/http.go: a challenge that a backend's answer decides.
use wpoven_nobot.Mime
use wpoven_nobot.Base.{
  text_equality, eqb, if◌then◌else◌, is_empty, Text, ascii, text_eq, lookup, ℕ, true, false, Option,
  none, some, List, [], ◌∷◌, ◌++◌,
}
use wpoven_nobot.Tags.{is_one_of}
use wpoven_nobot.Mime.{Header}
use wpoven_nobot.Time.{Time}
use wpoven_nobot.Challenge.Data.{issue_challenge_token}
use wpoven_nobot.Challenge.Headers.{request_headers}
use wpoven_nobot.Challenge.Types.{
  VerifyResult, result_fail, result_skip, result_not_ok, result_ok, no_cookie, other,
}
use wpoven_nobot.Challenge.World.{Request, client_asked, panicked, World, emit}
use wpoven_nobot.Challenge.Registration.{Key, VerifyFunc, Registration, State}

-- Parameters that the functions read; `cookie` is empty where none is bound
pub record HttpParameters : Type 0 where
  pub code : ℕ
  pub cookie : Text

-- bindAuthValue: the hash of the cookie's value and the key
unfoldable pub bind_auth_value : State → HttpParameters → Key → Request → Option Text
bind_auth_value state params key r = elim (lookup params.cookie r.cookies) [
  | none ↦ none
  | some value ↦ some (state.sha256 (value ++ 0 ∷ key))
]

-- reg.Verify, which is filled in where a cookie is bound
unfoldable pub verify_http : State → HttpParameters → VerifyFunc
unfolding bind_auth_value
verify_http state params key token r = elim (bind_auth_value state params key r) [
  | none ↦ (result_fail, some no_cookie)
  | some sum ↦
      if text_eq sum token
      then (result_ok, none)
      else (result_fail, some (other (ascii "invalid cookie value")))
]

abbrev excluded : List Text
excluded =
    ascii "Host"
    ∷ ascii "Content-Length"
    ∷ ascii "Upgrade"
    ∷ ascii "Accept-Encoding"
    ∷ ascii "Range"
    ∷ []

forwarded_headers : Header → Header
forwarded_headers [] = []
forwarded_headers ((k, vs) ∷ h) =
    let rest = forwarded_headers h in if is_one_of k excluded then rest else (k, vs) ∷ rest

abbrev describe : Request → Header → Header
describe r h = Mime.set (ascii "X-Away-Query") r.url.raw_query (
    Mime.set (ascii "X-Away-Path") r.url.path
      (Mime.set (ascii "X-Away-Host") r.host (Mime.set (ascii "X-Away-Method") r.method h)))

abbrev answer :
    Registration → HttpParameters → Key → Text → Time → Option ℕ → World → VerifyResult × World
answer reg params key sum expiry none w = (result_fail, w)
answer reg params key sum expiry (some status) w =
    if eqb status params.code
    then (result_ok, issue_challenge_token reg.name key sum expiry true w)
    else (result_not_ok, issue_challenge_token reg.name key sum expiry false w)

-- The part of IssueChallenge behind the cookie. `client` is the client's answer to a request with
-- these headers, its status or an error; the request, with the cookies and the query of the one that
-- it asks about, is an event, and so is the panic of RequestHeaders.
unfoldable pub ask_backend :
    State
    → HttpParameters
    → (Header → Option ℕ)
    → Registration
    → Text
    → World
    → Key
    → Time
    → VerifyResult × World
unfolding forwarded_headers
ask_backend state params client reg sum w key expiry =
    elim (request_headers state w.request_data (forwarded_headers w.request.header)) [
      | none ↦ (result_fail, emit panicked w)
      | some h ↦
          let sent = describe w.request h in
          answer reg params key sum expiry (client sent) (emit (client_asked sent) w)
    ]

-- IssueChallenge
unfoldable pub issue_http :
    State
    → HttpParameters
    → (Header → Option ℕ)
    → Registration
    → World
    → Key
    → Time
    → VerifyResult × World
unfolding ask_backend bind_auth_value
issue_http state params client reg w key expiry =
    let asked = ask_backend state params client reg [] w key expiry in
    if is_empty params.cookie then asked else elim (bind_auth_value state params key w.request) [
      | none ↦ (result_skip, w)
      | some sum ↦ ask_backend state params client reg sum w key expiry
    ]
