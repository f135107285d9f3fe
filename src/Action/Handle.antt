-- ===== src/Action/Handle.antt =====
-- Challenge.Handle of lib/action/challenge.go, and Handle of every handler.
pub mod Solved
use wpoven_nobot.Url.{encode}
use wpoven_nobot.Challenge.State.{error_page}
use wpoven_nobot.Base.{
  nat_equality, text_equality, if◌then◌else◌, Text, ascii, ◌==◌, insert, Bool, true, false, ◌&&◌,
  ◌||◌, Option, none, some, List, [], ◌∷◌,
}
use wpoven_nobot.Action.{
  Done, Handled, next, stop, ChallengeAction, Handler, none_handler, pass_handler, drop_handler,
  deny_handler, block_handler, code_handler, context_handler, proxy_handler, challenge_handler,
  handle_pass, handle_block, handle_code, handle_context, handle_proxy,
}
use wpoven_nobot.Url.{query, string}
use wpoven_nobot.Challenge.Key.{get_challenge_key_for_request}
use wpoven_nobot.Challenge.Query.{delete_args, has_args}
use wpoven_nobot.Challenge.Token.{with_data}
use wpoven_nobot.Challenge.Data.{expiration, verify_of, state_of, has_valid_challenge}
use wpoven_nobot.Challenge.State.{response_headers}
use wpoven_nobot.Challenge.Types.{
  Class, transparent, blocking, state_pass, VerifyResult, result_none, result_fail, result_skip,
  result_not_ok, result_ok, is_ok, same_result, is_pass,
}
use wpoven_nobot.Challenge.World.{
  RequestData, action_hit, challenge_failed, challenge_passed, challenge_issued, challenge_checked,
  write_header, redirected, dropped, World, emit, set_header,
}
use wpoven_nobot.Challenge.Registration.{Registration, State}

abbrev pub is_get_or_head : Text → Bool
is_get_or_head method = method == ascii "GET" || method == ascii "HEAD"

-- the redirect that takes the program's query parameters off
unfoldable pub redirect_clean : State → World → World
redirect_clean state w =
    let u = w.request.url in
    let clean = record u { raw_query = encode (delete_args (query u)) } in
    emit (redirected (string clean)) (response_headers state w)

-- a valid challenge was found
unfoldable pub passed : State → ChallengeAction → (World → Handled) → Registration → World → Handled
unfolding redirect_clean
passed state a pass reg w =
    let w' = emit (challenge_checked reg.name) w in
    if is_get_or_head w'.request.method && has_args (query w'.request.url)
    then stop (redirect_clean state w')
    else if a.continue
    then next w'
    else pass (emit (action_hit a.pass_action) w')

-- the first loop of Handle: the first registration whose challenge is valid
unfoldable pub first_valid : RequestData → List Registration → Option Registration
first_valid d [] = none
first_valid d (reg ∷ regs) = if has_valid_challenge reg.id d then some reg else first_valid d regs

-- the challenges that the second loop leaves out
abbrev pub is_skipped : RequestData → Registration → Bool
is_skipped d reg =
    is_ok (verify_of reg.id d)
    || same_result (verify_of reg.id d) result_skip
    || is_pass (state_of reg.id d)

abbrev pub issued_event : VerifyResult → Registration → World → World
issued_event result reg w =
    if same_result result result_skip then w else emit (challenge_issued reg.name) w

-- issues the challenge, and puts its result down
unfoldable pub issue : State → Registration → World → VerifyResult × World
issue state reg w =
    let expiry = expiration reg.duration w.request_data in
    let key =
      get_challenge_key_for_request state reg expiry w.request w.request_data.remote_address in
    let (result, issued) = reg.issue_challenge w key expiry in
    let w' = issued_event result reg issued in
    let d = w'.request_data in
    (
      result,
      with_data w' (record d {
        challenge_verify = insert reg.id result d.challenge_verify;
        challenge_state = insert reg.id state_pass d.challenge_state;
      }),
    )

abbrev pub is_transparent : Class → Bool
is_transparent transparent = true
is_transparent blocking = false

-- the switch over the result of issuing; `rest` is the loop over the later registrations
abbrev pub after_issue :
    ChallengeAction
    → (World → Handled)
    → (World → Handled)
    → Registration
    → (World → Handled)
    → VerifyResult
    → World
    → Handled
after_issue a pass fail reg rest result_ok w =
    let w' = emit (challenge_passed reg.name) w in
    if a.continue then next w' else pass (emit (action_hit a.pass_action) w')
after_issue a pass fail reg rest result_not_ok w = rest w
after_issue a pass fail reg rest result_fail w =
    let w' = emit (challenge_failed reg.name) w in
    if is_transparent reg.class then rest w' else fail (emit (action_hit a.fail_action) w')
after_issue a pass fail reg rest result_none w = if is_transparent reg.class then rest w else stop w
after_issue a pass fail reg rest result_skip w = rest w

-- the second loop of Handle, with the default action behind it
unfoldable pub issue_each :
    State
    → ChallengeAction
    → (World → Handled)
    → (World → Handled)
    → List Registration
    → World
    → Handled
issue_each state a pass fail [] w = fail (emit (action_hit a.fail_action) w)
issue_each state a pass fail (reg ∷ regs) w =
    let skipped = issue_each state a pass fail regs w in
    if is_skipped w.request_data reg
    then skipped
    else after_issue a pass fail reg (issue_each state a pass fail regs) (issue state reg w).0
        (issue state reg w).1

-- Challenge.Handle, over the handlers for a pass and a failure
unfoldable pub handle_challenge :
    State → ChallengeAction → (World → Handled) → (World → Handled) → World → Handled
unfolding first_valid passed issue_each
handle_challenge state a pass fail w = elim (first_valid w.request_data a.challenges) [
  | some reg ↦ passed state a pass reg w
  | none ↦ issue_each state a pass fail a.challenges w
]

-- Drop.Handle: the connection is closed, where the response writer allows that
unfoldable pub handle_drop : Bool → World → Handled
handle_drop hijacked w =
    if hijacked
    then stop (emit dropped w)
    else stop (
        emit (write_header 403) (
          set_header (ascii "Cache-Control") (ascii "no-cache, no-store, must-revalidate") (
            set_header (ascii "Connection") (ascii "close") (
              set_header (ascii "Content-Length") (ascii "0")
                (set_header (ascii "Content-Type") (ascii "text/plain") w)))))

-- Handler.Handle of every type that implements it
unfoldable pub handle : State → Handler → Done → World → Handled
unfolding handle_pass handle_block handle_code handle_context handle_proxy handle_challenge
    handle_drop
handle state none_handler done w = next w
handle state pass_handler done w = handle_pass done w
handle state drop_handler done w = handle_drop w.request.hijackable w
handle state (deny_handler code hash) done w = stop (error_page state code w)
handle state (block_handler code hash) done w = handle_block state code w
handle state (code_handler code) done w = handle_code state code w
handle state (context_handler opts) done w = handle_context opts w
handle state (proxy_handler rewrite name) done w = handle_proxy state rewrite name done w
handle state (challenge_handler a p f) done w =
    handle_challenge state a (handle state p done) (handle state f done) w
