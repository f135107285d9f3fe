-- ===== src/Challenge/World.antt =====
-- The state that the handlers of one request read and change: the request, the RequestData of
-- lib/challenge/data.go, the response's header, and what was done, in order.
use wpoven_nobot.Query.{Values}
use wpoven_nobot.Mime.{Header}
use wpoven_nobot.Time.{Time}
use wpoven_nobot.Url.{Url}
use wpoven_nobot.Net.{Addr}
use wpoven_nobot.Challenge.Types.{VerifyState, VerifyResult}
use wpoven_nobot.Base.{Text, ℕ, Bool, List, [], ◌∷◌, ◌++◌}
use wpoven_nobot.Mime

-- `*http.Request`; `cookies` is what `r.Cookies()` parses from the header, `pusher` says that the
-- response writer is an `http.Pusher`, `hijackable` that it can be hijacked
pub record Request : Type 0 where
  pub method : Text
  pub proto : Text
  pub proto_major : ℕ
  pub host : Text
  pub url : Url
  pub header : Header
  pub cookies : List (Text × Text)
  pub remote_addr : Text
  pub tls : Bool
  pub pusher : Bool
  pub hijackable : Bool

pub record TokenChallenge : Type 0 where
  pub key : Text
  pub result : Text
  pub ok : Bool
  pub expiry : ℕ
  pub not_before : ℕ
  pub issued_at : ℕ

abbrev pub TokenChallengeMap : Type 0
TokenChallengeMap = List (Text × TokenChallenge)

pub record Token : Type 0 where
  pub state : TokenChallengeMap
  pub expiry : ℕ
  pub not_before : ℕ
  pub issued_at : ℕ

-- RequestData
pub record RequestData : Type 0 where
  pub id : Text
  pub time : Time
  pub challenge_verify : List (ℕ × VerifyResult)
  pub challenge_state : List (ℕ × VerifyState)
  pub challenge_map : TokenChallengeMap
  pub challenge_map_modified : Bool
  pub remote_address : Addr
  pub cookie_name : Text
  pub issued_challenge : Text
  pub extra_headers : Header
  pub fp : List (Text × Text)
  pub query : Values
  pub opts : List (Text × Text)

-- `http.Cookie` as SetCookie of utils/cookie.go fills it in
pub record Cookie : Type 0 where
  pub name : Text
  pub value : Text
  pub expires : Time
  pub domain : Text
  pub path : Text

-- The actions of lib/policy/rule.go.
pub data RuleAction : Type 0 where
  none_action pass_action deny_action block_action code_action drop_action : RuleAction
  challenge_action check_action proxy_action context_action : RuleAction

-- What a request's handling does that others see: metrics, parts of the response, and calls of a
-- backend with the request as it then stands.
pub data Event : Type 0 where
  rule_hit rule_miss : Text → Event
  action_hit : RuleAction → Event
  challenge_failed challenge_passed challenge_issued challenge_checked : Text → Event
  write_header : ℕ → Event
  redirected : Text → Event
  challenge_page_sent : ℕ → Text → Event
  error_page_sent : ℕ → Event
  http_error : ℕ → Event
  served : ℕ → Request → Event
  client_asked : Header → Event
  address_looked_up : Text → Event
  dropped panicked : Event

pub record World : Type 0 where
  pub request : Request
  pub request_data : RequestData
  pub response : Header
  pub set_cookies : List Cookie
  pub events : List Event
  pub now : Time

-- puts down what was done
abbrev pub emit : Event → World → World
emit e w = record w { events = w.events ++ e ∷ [] }

-- `w.Header().Set(name, value)`
abbrev pub set_header : Text → Text → World → World
set_header name value w = record w { response = Mime.set name value w.response }
