-- ===== src/Runtime/Page.antt =====
-- The runtimes that answer with a redirect or a page: lib/challenge/cookie, refresh, resource-load,
-- and the page of lib/challenge/wasm.
-- `time.Now().UTC().UnixMilli()`
use wpoven_nobot.Wasm.{VerifyOutput, output_ok, output_failed, output_error}
use wpoven_nobot.Time.{Time, unix_epoch}
use wpoven_nobot.Url.{string}
use wpoven_nobot.Challenge.Data.{issue_challenge_token}
use wpoven_nobot.Challenge.State.{response_headers, challenge_page}
use wpoven_nobot.Challenge.Types.{
  VerifyResult, result_none, result_fail, result_ok, is_ok, Err, other,
}
use wpoven_nobot.Challenge.World.{write_header, redirected, World, emit, set_header}
use wpoven_nobot.Challenge.Verify.{issue_key, redirect_url, verify_url}
use wpoven_nobot.Challenge.Registration.{Key, VerifyFunc, Registration, State}
use wpoven_nobot.Base.{
  if◌then◌else◌, Text, ascii, ℕ, ◌-◌, ◌*◌, ◌/◌, true, Option, none, some, [], ◌++◌,
}

abbrev pub unix_milli : Time → ℕ
unix_milli t = t / 1000000 - unix_epoch * 1000

-- IssueChallenge of the cookie runtime
unfoldable pub issue_cookie : State → Registration → World → Key → Time → VerifyResult × World
issue_cookie state reg w key expiry =
    let w' = issue_challenge_token reg.name key [] expiry true w in
    (result_none, emit (redirected (string (redirect_url reg w'))) (response_headers state w'))

-- the parameter `refresh-via`
pub data RefreshMode : Type 0 where
  by_javascript by_meta by_header : RefreshMode

-- IssueChallenge of the refresh runtime; the page itself differs by mode
unfoldable pub issue_refresh :
    State → RefreshMode → Registration → World → Key → Time → VerifyResult × World
issue_refresh state by_header reg w key expiry =
    let uri = verify_url reg (issue_key key) (unix_milli w.now) w in
    (
      result_none,
      challenge_page state state.settings.challenge_response_code reg
          (set_header (ascii "Refresh") (ascii "0; url=" ++ string uri) w),
    )
issue_refresh state _ reg w key expiry =
    (result_none, challenge_page state state.settings.challenge_response_code reg w)

-- IssueChallenge of the resource-load runtime
unfoldable pub issue_resource_load :
    State → Registration → World → Key → Time → VerifyResult × World
issue_resource_load state reg w key expiry = (
  result_none,
  challenge_page state state.settings.challenge_response_code reg
      (set_header (ascii "Refresh") (ascii "2; url=" ++ string (redirect_url reg w)) w),
)

-- the response of the resource-load runtime's verify handler
unfoldable pub respond_resource_load : State → VerifyResult → Option Err → Text → World → World
respond_resource_load state r err redirect w =
    let w' = set_header (ascii "Content-Length") (ascii "0") (
      set_header (ascii "Cache-Control") (ascii "no-cache, no-store, must-revalidate")
        (set_header (ascii "Content-Type") (ascii "text/css; charset=utf-8") w)) in
    emit (write_header (if is_ok r then 200 else 403)) (response_headers state w')

-- IssueChallenge of the js runtime
unfoldable pub issue_js : State → Registration → World → Key → Time → VerifyResult × World
issue_js state reg w key expiry =
    (result_none, challenge_page state state.settings.challenge_response_code reg w)

-- Verify of the js runtime; `run` is the module's answer, or an error of running it
unfoldable pub verify_js : (Key → Text → Option VerifyOutput) → VerifyFunc
verify_js run key token r = elim (run key token) [
  | none ↦ (result_fail, some (other (ascii "runtime")))
  | some out ↦ elim out [
    | output_ok ↦ (result_ok, none)
    | output_failed ↦ (result_fail, none)
    | output_error ↦ (result_fail, some (other (ascii "error checking challenge")))
  ]
]
