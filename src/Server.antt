-- ===== src/Server.antt =====
-- handleRequest of lib/http.go: the rules in order, and the default pass.
pub mod Private
pub mod Handlers
pub mod Serving
pub mod Entry
use wpoven_nobot.Mime
use wpoven_nobot.Challenge.State.{error_page}
use wpoven_nobot.Base.{
  text_equality, if◌then◌else◌, is_empty, Text, ascii, ◌==◌, ℕ, Bool, true, false, not, ◌&&◌, none,
  some, List, [], ◌∷◌,
}
use wpoven_nobot.Action.{
  Backend, backend, empty_backend, Done, Handled, next, stop, failed, handle_pass,
}
use wpoven_nobot.Rule.{RuleState, rule, Rules, nil, cons, action_name, and_next, evaluate}
use wpoven_nobot.Query.{get_value, parse_raw_query, encode_raw_query}
use wpoven_nobot.Mime.{Header, first}
use wpoven_nobot.Text.{has_prefix}
use wpoven_nobot.Url.{query}
use wpoven_nobot.Challenge.Query.{query_arg_referer, delete_args}
use wpoven_nobot.Challenge.Data.{get_opt, backend_host_opt}
use wpoven_nobot.Challenge.State.{response_headers}
use wpoven_nobot.Challenge.World.{
  RuleAction, pass_action, rule_hit, action_hit, http_error, panicked, World, emit,
}
use wpoven_nobot.Challenge.Registration.{State, get_backend}
use wpoven_nobot.Action.Build.{rule_action}

-- utils.DefaultCookiePrefix
abbrev pub default_cookie_prefix : Text
default_cookie_prefix = ascii ".go-away-"

other_cookies : List (Text × Text) → List (Text × Text)
other_cookies [] = []
other_cookies ((name, value) ∷ cs) =
    let rest = other_cookies cs in
    if has_prefix name default_cookie_prefix then rest else (name, value) ∷ rest

abbrev restore_referer : Text → Header → Header
restore_referer ref h = if is_empty ref then h else Mime.set (ascii "Referer") ref h

-- cleanupRequest; setting the header "Cookie" anew is keeping the other cookies
unfoldable pub cleanup_request : State → Bool → Text → RuleAction → World → World
unfolding other_cookies
cleanup_request state from_challenge rule_name rule_action w =
    let r = w.request in
    let u = r.url in
    let d = w.request_data in
    let referer = get_value query_arg_referer (query u) in
    let header = if from_challenge then Mime.del (ascii "Referer") r.header else r.header in
    let extra =
      Mime.set (ascii "X-Away-Action") (action_name rule_action)
        (Mime.set (ascii "X-Away-Rule") rule_name d.extra_headers) in
    response_headers state (record w {
      request = record r {
        header = restore_referer referer header;
        url = record u { raw_query = encode_raw_query (delete_args (parse_raw_query u.raw_query)) };
        cookies = other_cookies r.cookies;
      };
      request_data = record d { extra_headers = extra };
    })

-- getBackend; under the option it asks for the request's own host once more, and a missing backend
-- is answered before the handler that does nothing is returned
unfoldable pub select_backend : State → Text → ℕ → World → Backend × World
select_backend state host first w =
    let opt = get_opt backend_host_opt [] w.request_data in
    if not (is_empty opt) && not (opt == host)
    then elim (get_backend state host) [
      | none ↦ (empty_backend, emit (http_error 503) w)
      | some b ↦ (backend b, w)
    ]
    else (backend first, w)

-- the `done` of a rule of the list
unfoldable pub top_done : State → Text → ℕ → Bool → Text → RuleAction → Done
unfolding cleanup_request select_backend
top_done state host first from_challenge name action w =
    select_backend state host first (cleanup_request state from_challenge name action w)

abbrev pub name_of : RuleState → Text
name_of (rule name _ _ _ _ _) = name

abbrev pub action_of : RuleState → RuleAction
action_of (rule _ _ _ action _ _) = action

-- the loop over the rules; the done of each carries its own name
unfoldable pub evaluate_rules : State → Text → ℕ → Rules → World → Handled
unfolding evaluate
evaluate_rules state host first nil w = next w
evaluate_rules state host first (cons r rules) w =
    and_next (evaluate state r (top_done state host first true (name_of r) (action_of r)) w)
      (evaluate_rules state host first rules)

-- what stands behind the loop
unfoldable pub default_pass : State → Text → ℕ → World → Handled
unfolding top_done handle_pass
default_pass state host first w =
    handle_pass (top_done state host first false (ascii "DEFAULT") pass_action)
      (emit (action_hit pass_action) (emit (rule_hit (ascii "DEFAULT")) w))

-- the error page and the panic, or the state that the handlers left
abbrev pub finish : State → Handled → World
finish state (next w) = w
finish state (stop w) = w
finish state (failed e w) = emit panicked (error_page state 500 w)

-- State.handleRequest
unfoldable pub handle_request : State → Rules → World → World
unfolding evaluate_rules default_pass
handle_request state rules w = elim (get_backend state w.request.host) [
  | none ↦ emit (http_error 503) w
  | some first ↦ finish state (
      and_next (evaluate_rules state w.request.host first rules w)
        (default_pass state w.request.host first))
]
