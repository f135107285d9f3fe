-- ===== src/Examples/Serving.antt =====
-- The theorems on rules, actions and backends, at examples.
use wpoven_nobot.Mime
use wpoven_nobot.Base.{
  text_equality, nat_equality, All, ascii, refl, false, none, some, [], ◌∷◌, arith, ◌≡◌, true,
  Option,
}
use wpoven_nobot.Challenge.Types.{result_ok}
use wpoven_nobot.Rule.{nil, cons, rule, Rules}
use wpoven_nobot.Action.{next, stop, ChallengeAction, pass_handler, deny_handler, challenge_handler}
use wpoven_nobot.Tags.{filter_tags}
use wpoven_nobot.Query.{parse_raw_query, encode_raw_query}
use wpoven_nobot.Examples.{
  example_data, example_world, example_registration, example_state, example_address,
  example_request,
}
use wpoven_nobot.Server.{handle_request}
use wpoven_nobot.Server.Serving.{RuleKeeps, RulesKeep, handle_request-IsClean}
use wpoven_nobot.Server.Private.{IsClean}
use wpoven_nobot.Challenge.Query.{delete_args}
use wpoven_nobot.Challenge.Data.{has_valid_challenge}
use wpoven_nobot.Challenge.State.{error_page}
use wpoven_nobot.Challenge.World.{pass_action, deny_action, challenge_action, World, Request}
use wpoven_nobot.Challenge.Query.Clean.{IsForeign, delete_args-IsForeign}
use wpoven_nobot.Action.Handle.{issue, handle_challenge}
use wpoven_nobot.Action.Handle.Solved.{NoneSolved, IsRefused, handle_challenge-IsRefused}
use wpoven_nobot.Tags.Laws.{IsHarmless, filter_tags-IsHarmless}
use wpoven_nobot.Challenge.Registration.{Registration}
use wpoven_nobot.Runtime.Page.{issue_cookie}
use wpoven_nobot.Challenge.Headers.{request_headers}
use wpoven_nobot.Proxy.Director.{BackendSettings, told_host, direct}
use wpoven_nobot.Proxy.Director.Laws.{direct_told}
use wpoven_nobot.Mime.{Header}
use wpoven_nobot.Runtime.Private.{page_runtimes-IsKeptBy}

abbrev example_action : ChallengeAction
example_action = record {
  code = 418;
  continue = false;
  challenges = example_registration 1 (ascii "first") ∷ [];
  pass_action = pass_action;
  fail_action = deny_action;
}

-- a challenge of the cookie runtime
abbrev cookie_registration : Registration
cookie_registration = record (example_registration 1 (ascii "first")) {
  issue_challenge = issue_cookie example_state (example_registration 1 (ascii "first"));
}

abbrev cookie_action : ChallengeAction
cookie_action = record example_action { challenges = cookie_registration ∷ [] }

-- a rule that asks for a challenge, and one that denies what is left
abbrev example_rules : Rules
example_rules =
    cons
      (rule (ascii "ask") (ascii "h1") none challenge_action
        (challenge_handler cookie_action pass_handler (deny_handler 403 (ascii "h1"))) nil)
      (cons (rule (ascii "deny") (ascii "h2") none deny_action (deny_handler 403 (ascii "h2")) nil)
        nil)

example_rules-RulesKeep : RulesKeep example_rules
unfolding RuleKeeps RulesKeep
example_rules-RulesKeep =
    let kept = page_runtimes-IsKeptBy example_state (example_registration 1 (ascii "first")) in
    ((((kept.0, tt), tt, tt), tt), ((tt, tt), tt))

-- the world of a client that has passed the challenge and sends a form
abbrev passed_world : World
passed_world = record example_world {
  request = record example_request { method = ascii "POST" };
  request_data = record example_data { challenge_verify = (1, result_ok) ∷ [] };
}

handle_request-IsClean_example : IsClean (handle_request example_state example_rules passed_world)
handle_request-IsClean_example =
    handle_request-IsClean example_state example_rules passed_world example_rules-RulesKeep tt

NoneSolved_example : NoneSolved example_state example_action.challenges
unfolding issue
NoneSolved_example = ((λ w. ground arith), tt)

handle_challenge-IsRefused_example :
    IsRefused example_state example_action example_action.challenges
      (λ w. stop (error_page example_state 403 w))
      example_world
      (handle_challenge example_state example_action
        (λ w. next w)
        (λ w. stop (error_page example_state 403 w))
        example_world)
unfolding has_valid_challenge
handle_challenge-IsRefused_example =
    handle_challenge-IsRefused example_state example_action (λ w. next w)
      (λ w. stop (error_page example_state 403 w)) example_world (refl, tt) NoneSolved_example

delete_args-IsForeign_example :
    All
      (λ e. IsForeign e.0)
      (parse_raw_query
        (encode_raw_query (delete_args (parse_raw_query (ascii "q=1&__goaway_id=7")))))
delete_args-IsForeign_example = delete_args-IsForeign (ascii "q=1&__goaway_id=7")

filter_tags-IsHarmless_example : All IsHarmless (
    filter_tags (
      record {
        namespace = [];
        tag = ascii "meta";
        attr =
            record { namespace = []; key = ascii "name"; val = ascii "author" }
            ∷ record { namespace = []; key = ascii "onload"; val = ascii "f()" }
            ∷ [];
      }
      ∷ []))
filter_tags-IsHarmless_example = filter_tags-IsHarmless (
    record {
      namespace = [];
      tag = ascii "meta";
      attr =
          record { namespace = []; key = ascii "name"; val = ascii "author" }
          ∷ record { namespace = []; key = ascii "onload"; val = ascii "f()" }
          ∷ [];
    }
    ∷ [])

-- a backend that is told addresses under a header, which the client has sent too
abbrev example_backend : BackendSettings
example_backend = record { backend_host = []; ip_header = ascii "X-Real-Ip"; transparent = false }

abbrev spoofing_request : Request
spoofing_request = record example_request {
  header = (ascii "X-Real-Ip", ascii "203.0.113.9" ∷ []) ∷ [];
}

abbrev header_or_empty : Option Header → Header
header_or_empty none = []
header_or_empty (some h) = h

direct_told_example :
    (direct example_state
        (record example_backend { transparent = true })
        (λ q. q)
        (some example_data)
        (some example_address)
        spoofing_request
      ≡ some (told_host [] spoofing_request))
    × ((told_host [] spoofing_request).header ≡ spoofing_request.header)
    × ((q : Request) × (direct example_state
            (record example_backend { transparent = false })
            (λ q. q)
            (some example_data)
            (some example_address)
            spoofing_request
          ≡ some q)
        × (Mime.get (ascii "X-Real-Ip") q.header ≡ ascii "192.0.2.7"))
unfolding request_headers
direct_told_example =
    direct_told example_state example_backend example_data example_address spoofing_request
      (header_or_empty (request_headers example_state example_data spoofing_request.header)) refl
      refl
