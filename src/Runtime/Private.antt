-- ===== src/Runtime/Private.antt =====
-- Issuing a challenge by the runtimes under lib/challenge shows no backend a request.
use wpoven_nobot.Runtime.Page.{
  issue_cookie, issue_refresh, by_javascript, by_meta, by_header, RefreshMode, issue_resource_load,
  issue_js,
}
use wpoven_nobot.Runtime.Preload.{issue_preload}
use wpoven_nobot.Time.{Time}
use wpoven_nobot.Url.{string}
use wpoven_nobot.Server.Private.{IsClean, emit-IsClean, response_headers_keeps}
use wpoven_nobot.Challenge.Data.{issue_challenge_token}
use wpoven_nobot.Challenge.State.{response_headers, challenge_page}
use wpoven_nobot.Challenge.Types.{VerifyResult}
use wpoven_nobot.Challenge.World.{write_header, redirected, challenge_page_sent, World}
use wpoven_nobot.Challenge.Verify.{redirect_url}
use wpoven_nobot.Challenge.Registration.{Key, Registration, State}
use wpoven_nobot.Base.{ltb, Bool-cases, Text, ℕ, inl, inr, true, not, ◌&&◌, []}

-- Issuing keeps worlds clean, as the rules of Server/Handlers ask.
abbrev pub IsKeptBy : (World → Key → Time → VerifyResult × World) → Type 0
IsKeptBy issue_it =
    (w : World) (key : Key) (expiry : Time) → IsClean w → IsClean (issue_it w key expiry).1

challenge_page_keeps :
    (state : State) (code : ℕ) (reg : Registration) (w : World)
    → IsClean w
    → IsClean (challenge_page state code reg w)
unfolding challenge_page
challenge_page_keeps state code reg w h =
    emit-IsClean (challenge_page_sent code reg.name) (response_headers state _) tt
      (rw ((response_headers_keeps state _).0) h)

issue_cookie-IsKeptBy : (state : State) (reg : Registration) → IsKeptBy (issue_cookie state reg)
unfolding issue_cookie issue_challenge_token
issue_cookie-IsKeptBy state reg w key expiry h =
    let w' = issue_challenge_token reg.name key [] expiry true w in
    emit-IsClean (redirected (string (redirect_url reg w'))) (response_headers state w') tt
      (rw ((response_headers_keeps state w').0) h)

issue_refresh-IsKeptBy :
    (state : State) (mode : RefreshMode) (reg : Registration)
    → IsKeptBy (issue_refresh state mode reg)
unfolding issue_refresh
issue_refresh-IsKeptBy state by_header reg w key expiry h =
    challenge_page_keeps state state.settings.challenge_response_code reg _ h
issue_refresh-IsKeptBy state by_meta reg w key expiry h =
    challenge_page_keeps state state.settings.challenge_response_code reg w h
issue_refresh-IsKeptBy state by_javascript reg w key expiry h =
    challenge_page_keeps state state.settings.challenge_response_code reg w h

issue_preload-IsKeptBy :
    (await : Text → VerifyResult) (reg : Registration) → IsKeptBy (issue_preload await reg)
unfolding issue_preload
issue_preload-IsKeptBy await reg w key expiry h =
    elim (Bool-cases (ltb w.request.proto_major 2 && not w.request.pusher)) [
      | inl e ↦ rw e h
      | inr e ↦ rw e (emit-IsClean (write_header 103) w tt h)
    ]

-- The runtimes cookie, refresh, resource-load, js and preload-link, in every mode and whatever Await
-- answers, show no backend a request while they issue a challenge.
pub page_runtimes-IsKeptBy :
    (state : State) (reg : Registration)
    → IsKeptBy (issue_cookie state reg)
      × ((mode : RefreshMode) → IsKeptBy (issue_refresh state mode reg))
      × IsKeptBy (issue_resource_load state reg)
      × IsKeptBy (issue_js state reg)
      × ((await : Text → VerifyResult) → IsKeptBy (issue_preload await reg))
unfolding issue_resource_load issue_js
page_runtimes-IsKeptBy state reg = (
  issue_cookie-IsKeptBy state reg,
  (λ mode. issue_refresh-IsKeptBy state mode reg),
  (λ w key expiry h. challenge_page_keeps state state.settings.challenge_response_code reg _ h),
  (λ w key expiry h. challenge_page_keeps state state.settings.challenge_response_code reg w h),
  (λ await. issue_preload-IsKeptBy await reg),
)
