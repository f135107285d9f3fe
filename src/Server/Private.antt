-- ===== src/Server/Private.antt =====
-- What backends are shown of a request: none of the query parameters and cookies that the program
-- adds itself.
use wpoven_nobot.Challenge.State.{response_headers}
use wpoven_nobot.Action.{Handled, next, stop, failed}
use wpoven_nobot.Query.{parse_raw_query}
use wpoven_nobot.Text.{has_prefix}
use wpoven_nobot.Server.{default_cookie_prefix, cleanup_request, other_cookies}
use wpoven_nobot.Challenge.World.{Request, RuleAction, Event, served, World, emit}
use wpoven_nobot.Challenge.Registration.{State}
use wpoven_nobot.Challenge.Query.Clean.{IsForeign, delete_args-IsForeign}
use wpoven_nobot.Base.{
  Bool-cases, All, All-append, Text, ◌≡◌, inl, inr, Bool, false, List, [], ◌∷◌, arith,
}

-- None of the query's names, as they stand there and not decoded, is the program's own, and no cookie.
abbrev pub IsPrivate : Request → Type 0
IsPrivate r =
    All (λ e. IsForeign e.0) (parse_raw_query r.url.raw_query)
    × All (λ c. has_prefix c.0 default_cookie_prefix ≡ false) r.cookies

abbrev pub EventIsPrivate : Event → Type 0
EventIsPrivate (served b r) = IsPrivate r
EventIsPrivate _ = Unit

-- Every request that was handed to a backend is private.
abbrev pub IsClean : World → Type 0
IsClean w = All EventIsPrivate w.events

abbrev pub IsCleanResult : Handled → Type 0
IsCleanResult (next w) = IsClean w
IsCleanResult (stop w) = IsClean w
IsCleanResult (failed e w) = IsClean w

pub emit-IsClean : (e : Event) (w : World) → EventIsPrivate e → IsClean w → IsClean (emit e w)
emit-IsClean e w p h = All-append EventIsPrivate w.events (e ∷ []) h (p, tt)

other_cookies_private :
    (cs : List (Text × Text))
    → All (λ c. has_prefix c.0 default_cookie_prefix ≡ false) (other_cookies cs)
unfolding other_cookies
other_cookies_private [] = tt
other_cookies_private ((name, value) ∷ cs) =
    elim (Bool-cases (has_prefix name default_cookie_prefix)) [
      | inl e ↦ rw e (other_cookies_private cs)
      | inr e ↦ rw e (e, other_cookies_private cs)
    ]

pub response_headers_keeps :
    (state : State) (w : World)
    → ((response_headers state w).events ≡ w.events)
      × ((response_headers state w).request ≡ w.request)
unfolding response_headers
response_headers_keeps state w = ground arith

-- After cleanupRequest, reading the request's query gives no parameter of the program's own, and no
-- cookie left has a name that starts like the program's.
pub cleanup_request-IsPrivate :
    (state : State) (from_challenge : Bool) (name : Text) (action : RuleAction) (w : World)
    → IsPrivate (cleanup_request state from_challenge name action w).request
unfolding cleanup_request
cleanup_request-IsPrivate state from_challenge name action w =
    rw ((response_headers_keeps state _).1)
      (delete_args-IsForeign w.request.url.raw_query, other_cookies_private w.request.cookies)
