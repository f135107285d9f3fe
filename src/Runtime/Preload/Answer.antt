-- ===== src/Runtime/Preload/Answer.antt =====
-- The handler of lib/challenge/preload-link/preload-link.go, which answers the early request of the
-- client and tells the waiting call of IssueChallenge.
pub mod Laws
use wpoven_nobot.Base.{
  text_equality, if◌then◌else◌, Text, ascii, ℕ, Option, List, [], ◌∷◌, Bool, true, false,
}
use wpoven_nobot.Url.{Url}
use wpoven_nobot.Challenge.Key.{get_challenge_key_for_request}
use wpoven_nobot.Challenge.Data.{expiration}
use wpoven_nobot.Challenge.State.{response_headers}
use wpoven_nobot.Challenge.Types.{VerifyResult, is_ok}
use wpoven_nobot.Challenge.World.{write_header, World, emit, set_header}
use wpoven_nobot.Challenge.Verify.{
  verify_key, issue_key, information, no_information, get_verify_information, VerifyInformation,
}
use wpoven_nobot.Challenge.Registration.{Key, Registration, State}

-- the calls of Solve
abbrev solve_calls : Text → Text → VerifyResult → List (Text × VerifyResult)
solve_calls issuer_key token r = (issuer_key, r) ∷ (if is_ok r then [] else (token, r) ∷ [])

abbrev status_of : VerifyResult → ℕ
status_of r = if is_ok r then 200 else 401

-- WriteHeader, which the package net/http ignores where a status was written before
abbrev pub write_status : Bool → ℕ → World → World
write_status true status w = w
write_status false status w = emit (write_header status) w

-- the handler behind GetVerifyInformation, for the token that it gave
unfoldable pub answer_token : State → Bool → Key → Text → World → World × List (Text × VerifyResult)
answer_token state written key token w =
    let r = (verify_key key token w.request).0 in
    (
      write_status written (status_of r) (response_headers state w),
      solve_calls (issue_key key) token r,
    )

-- what follows GetVerifyInformation, whose error does not end the handler
abbrev pub answered : State → Key → VerifyInformation → World → World × List (Text × VerifyResult)
answered state key (no_information err) w =
    answer_token state true key [] (write_status false 400 w)
answered state key (information id redirect token) w = answer_token state false key token w

-- the headers that the handler sets first
abbrev pub answer_headers : World → World
answer_headers w = set_header (ascii "Content-Length") (ascii "0") (
    set_header (ascii "Cache-Control") (ascii "no-cache, no-store, must-revalidate")
      (set_header (ascii "Content-Type") (ascii "text/css; charset=utf-8") w))

-- the handler of the path's requests, and its calls of Solve in their order
unfoldable pub preload_answer :
    State → (Text → Option Url) → Registration → World → World × List (Text × VerifyResult)
unfolding answer_token
preload_answer state parse reg w =
    let until = expiration reg.duration w.request_data in
    let key =
      get_challenge_key_for_request state reg until w.request w.request_data.remote_address in
    answered state key (get_verify_information parse reg w.request) (answer_headers w)
