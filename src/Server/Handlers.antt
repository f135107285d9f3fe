-- ===== src/Server/Handlers.antt =====
-- Rules and handlers keep the promise of Server/Private, if the challenges that they issue do.
use wpoven_nobot.Base.{text_equality, List, ◌∷◌, Option, none, some, option_keeps}
use wpoven_nobot.Challenge.State.{error_page, response_headers}
use wpoven_nobot.Action.{
  Backend, backend, empty_backend, Done, Handler, challenge_handler, serve_http, Handled,
  ChallengeAction, none_handler, pass_handler, drop_handler, deny_handler, block_handler,
  code_handler, context_handler, proxy_handler, handle_pass, handle_block, handle_code,
  handle_context, rewritten, handle_proxy,
}
use wpoven_nobot.Rule.{rule_done}
use wpoven_nobot.Time.{Time}
use wpoven_nobot.Server.{cleanup_request, select_backend, top_done}
use wpoven_nobot.Server.Private.{
  IsPrivate, IsClean, emit-IsClean, response_headers_keeps, cleanup_request-IsPrivate,
  IsCleanResult,
}
use wpoven_nobot.Challenge.Data.{get_opt, backend_host_opt}
use wpoven_nobot.Challenge.World.{
  RuleAction, error_page_sent, http_error, served, World, action_hit, challenge_failed,
  challenge_passed, challenge_issued, challenge_checked, redirected, emit, write_header, dropped,
}
use wpoven_nobot.Challenge.Registration.{Key, Registration, State, get_backend}
use wpoven_nobot.Action.Handle.{
  issue, is_get_or_head, redirect_clean, passed, is_skipped, issued_event, is_transparent,
  after_issue, issue_each, handle, first_valid, handle_challenge, handle_drop,
}
use wpoven_nobot.Base.{
  Bool-cases, Option-cases, is_empty, All, Text, ◌==◌, ℕ, ◌≡◌, refl, inl, inr, Bool, not, ◌&&◌, [],
}
use wpoven_nobot.Url.{query}
use wpoven_nobot.Challenge.Query.{has_args}
use wpoven_nobot.Challenge.Types.{
  VerifyResult, result_none, result_fail, result_skip, result_not_ok, result_ok, same_result,
}

-- A `done` that leaves a private request behind.
abbrev pub IsPrivateDone : Done → Type 0
IsPrivateDone done = (w : World) → IsClean w → IsClean (done w).1 × IsPrivate (done w).1.request

abbrev KeepsClean : Registration → Type 0
KeepsClean reg =
    (w : World) (key : Key) (expiry : Time)
    → IsClean w
    → IsClean (reg.issue_challenge w key expiry).1

-- Issuing the challenges of a handler shows a backend nothing that is not private.
abbrev pub HandlerKeeps : Handler → Type 0
HandlerKeeps (challenge_handler a p f) =
    All KeepsClean a.challenges × HandlerKeeps p × HandlerKeeps f
HandlerKeeps _ = Unit

pub error_page_keeps :
    (state : State) (code : ℕ) (w : World) → IsClean w → IsClean (error_page state code w)
unfolding error_page
error_page_keeps state code w h =
    emit-IsClean (error_page_sent code) (response_headers state _) tt
      (rw ((response_headers_keeps state _).0) h)

served-IsClean :
    (b : Backend) (w : World) → IsClean w → IsPrivate w.request → IsClean (serve_http b w)
served-IsClean (backend n) w h p = emit-IsClean (served n w.request) w p h
served-IsClean empty_backend w h p = h

cleanup_request-events :
    (state : State) (from_challenge : Bool) (name : Text) (action : RuleAction) (w : World)
    → (cleanup_request state from_challenge name action w).events ≡ w.events
unfolding cleanup_request
cleanup_request-events state from_challenge name action w = (response_headers_keeps state _).0

select_backend_keeps :
    (state : State) (host : Text) (first : ℕ) (w : World)
    → IsClean w
    → IsClean (select_backend state host first w).1
      × ((select_backend state host first w).1.request ≡ w.request)
unfolding select_backend
select_backend_keeps state host first w h =
    elim (Bool-cases (
      not (is_empty (get_opt backend_host_opt [] w.request_data))
      && not (get_opt backend_host_opt [] w.request_data == host))) [
        | inr e ↦ rw e (h, refl)
        | inl e ↦ rw e (elim (Option-cases (get_backend state host)) [
          | inl n ↦ rw n (emit-IsClean (http_error 503) w tt h, refl)
          | inr (b, n) ↦ rw n (h, refl)
        ])
      ]

pub top_done-IsPrivateDone :
    (state : State) (host : Text) (first : ℕ) (from_challenge : Bool) (name : Text)
    (action : RuleAction)
    → IsPrivateDone (top_done state host first from_challenge name action)
unfolding top_done
top_done-IsPrivateDone state host first from_challenge name action w h =
    let cleaned = cleanup_request state from_challenge name action w in
    let (kept, same) =
      select_backend_keeps state host first cleaned
        (rw (cleanup_request-events state from_challenge name action w) h) in
    (kept, rw same (cleanup_request-IsPrivate state from_challenge name action w))

pub rule_done-IsPrivateDone :
    (name hash : Text) (action : RuleAction) (done : Done)
    → IsPrivateDone done
    → IsPrivateDone (rule_done name hash action done)
unfolding rule_done
rule_done-IsPrivateDone name hash action done p w h = p _ h

issued_event_keeps :
    (result : VerifyResult) (reg : Registration) (w : World)
    → IsClean w
    → IsClean (issued_event result reg w)
issued_event_keeps result reg w h = elim (Bool-cases (same_result result result_skip)) [
  | inl e ↦ rw e h
  | inr e ↦ rw e (emit-IsClean (challenge_issued reg.name) w tt h)
]

issue_keeps :
    (state : State) (reg : Registration) (w : World)
    → KeepsClean reg
    → IsClean w
    → IsClean (issue state reg w).1
unfolding issue
issue_keeps state reg w k h = issued_event_keeps _ reg _ (k w _ _ h)

-- A continuation that keeps worlds clean.
abbrev pub IsKeeping : (World → Handled) → Type 0
IsKeeping f = (w : World) → IsClean w → IsCleanResult (f w)

after_issue_keeps :
    (a : ChallengeAction) (pass fail rest : World → Handled) (reg : Registration)
    (result : VerifyResult) (w : World)
    → IsKeeping pass
    → IsKeeping fail
    → IsKeeping rest
    → IsClean w
    → IsCleanResult (after_issue a pass fail reg rest result w)
after_issue_keeps a pass fail rest reg result_ok w p f r h =
    let h' = emit-IsClean (challenge_passed reg.name) w tt h in
    elim (Bool-cases a.continue) [
      | inl e ↦ rw e h'
      | inr e ↦
          rw e (
            p _
              (emit-IsClean (action_hit a.pass_action) (emit (challenge_passed reg.name) w) tt h'))
    ]
after_issue_keeps a pass fail rest reg result_not_ok w p f r h = r w h
after_issue_keeps a pass fail rest reg result_fail w p f r h =
    let h' = emit-IsClean (challenge_failed reg.name) w tt h in
    elim (Bool-cases (is_transparent reg.class)) [
      | inl e ↦ rw e (r _ h')
      | inr e ↦
          rw e (
            f _
              (emit-IsClean (action_hit a.fail_action) (emit (challenge_failed reg.name) w) tt h'))
    ]
after_issue_keeps a pass fail rest reg result_none w p f r h =
    elim (Bool-cases (is_transparent reg.class)) [ inl e ↦ rw e (r w h) | inr e ↦ rw e h ]
after_issue_keeps a pass fail rest reg result_skip w p f r h = r w h

issue_each_keeps :
    (state : State) (a : ChallengeAction) (pass fail : World → Handled) (regs : List Registration)
    → IsKeeping pass
    → IsKeeping fail
    → All KeepsClean regs
    → IsKeeping (issue_each state a pass fail regs)
unfolding issue_each
issue_each_keeps state a pass fail [] p f k w h =
    f _ (emit-IsClean (action_hit a.fail_action) w tt h)
issue_each_keeps state a pass fail (reg ∷ regs) p f (k, ks) w h =
    let rest = issue_each_keeps state a pass fail regs p f ks in
    elim (Bool-cases (is_skipped w.request_data reg)) [
      | inl e ↦ rw e (rest w h)
      | inr e ↦
          rw e (after_issue_keeps a pass fail _ reg _ _ p f rest (issue_keeps state reg w k h))
    ]

rewritten_keeps :
    (rewrite : Option (Text → Text)) (w : World) → IsClean w → IsClean (rewritten rewrite w)
rewritten_keeps none w h = h
rewritten_keeps (some rewrite) w h = h

answer_keeps :
    (state : State) (code : ℕ) (w : World)
    → IsClean w
    → IsClean (emit (write_header code) (response_headers state w))
answer_keeps state code w h =
    emit-IsClean (write_header code) (response_headers state w) tt
      (rw ((response_headers_keeps state w).0) h)

passed_keeps :
    (state : State) (a : ChallengeAction) (pass : World → Handled) (reg : Registration)
    → IsKeeping pass
    → IsKeeping (passed state a pass reg)
unfolding passed redirect_clean
passed_keeps state a pass reg p w h =
    let w' = emit (challenge_checked reg.name) w in
    let h' = emit-IsClean (challenge_checked reg.name) w tt h in
    elim (Bool-cases (is_get_or_head w.request.method && has_args (query w.request.url))) [
      | inl e ↦ rw e (
          emit-IsClean (redirected _) (response_headers state w') tt
            (rw ((response_headers_keeps state w').0) h'))
      | inr e ↦ rw e (elim (Bool-cases a.continue) [
        | inl c ↦ rw c h'
        | inr c ↦ rw c (p _ (emit-IsClean (action_hit a.pass_action) w' tt h'))
      ])
    ]

pub handle_pass_keeps : (done : Done) → IsPrivateDone done → IsKeeping (handle_pass done)
unfolding handle_pass
handle_pass_keeps done d w h =
    let (kept, private) = d w h in served-IsClean (done w).0 (done w).1 kept private

handle_proxy_keeps :
    (state : State) (rewrite : Option (Text → Text)) (name : Text) (done : Done)
    → IsPrivateDone done
    → IsKeeping (handle_proxy state rewrite name done)
unfolding handle_proxy
handle_proxy_keeps state rewrite name done d w h =
    let (kept, private) = d (rewritten rewrite w) (rewritten_keeps rewrite w h) in
    option_keeps IsCleanResult (get_backend state name) _ _ h
      (λ b. served-IsClean (backend b) (done (rewritten rewrite w)).1 kept private)

handle_challenge_keeps :
    (state : State) (a : ChallengeAction) (pass fail : World → Handled)
    → IsKeeping pass
    → IsKeeping fail
    → All KeepsClean a.challenges
    → IsKeeping (handle_challenge state a pass fail)
unfolding handle_challenge
handle_challenge_keeps state a pass fail p f ks w h =
    option_keeps IsCleanResult (first_valid w.request_data a.challenges) _ _
      (issue_each_keeps state a pass fail a.challenges p f ks w h)
      (λ reg. passed_keeps state a pass reg p w h)

-- Handling a request keeps the world clean, when the handler's challenges and its `done` do.
pub handle_keeps :
    (state : State) (handler : Handler) (done : Done)
    → HandlerKeeps handler
    → IsPrivateDone done
    → (w : World) → IsClean w
    → IsCleanResult (handle state handler done w)
unfolding handle handle_drop handle_block handle_code handle_context
handle_keeps state none_handler done k d w h = h
handle_keeps state pass_handler done k d w h = handle_pass_keeps done d w h
handle_keeps state drop_handler done k d w h = elim (Bool-cases w.request.hijackable) [
  | inl e ↦ rw e (emit-IsClean dropped w tt h)
  | inr e ↦ rw e (emit-IsClean (write_header 403) w tt h)
]
handle_keeps state (deny_handler code hash) done k d w h = error_page_keeps state code w h
handle_keeps state (block_handler code hash) done k d w h = answer_keeps state code _ h
handle_keeps state (code_handler code) done k d w h = answer_keeps state code _ h
handle_keeps state (context_handler opts) done k d w h = h
handle_keeps state (proxy_handler rewrite name) done k d w h =
    handle_proxy_keeps state rewrite name done d w h
handle_keeps state (challenge_handler a p f) done (ks, kp, kf) d w h =
    handle_challenge_keeps state a _ _ (handle_keeps state p done kp d)
      (handle_keeps state f done kf d) ks w h
