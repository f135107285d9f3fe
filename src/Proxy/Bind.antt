-- ===== src/Proxy/Bind.antt =====
-- lib/settings/bind.go: the listener, the handler that the server starts with and that is swapped
-- later, and which hosts get certificates.
use wpoven_nobot.Base.{
  text_equality, if◌then◌else◌, Text, ascii, ◌==◌, ℕ, ◌≡◌, Bool, true, false, ◌&&◌, Option, none,
  some, List, ◌++◌, arith,
}
use wpoven_nobot.Redirect.{select_http_handler}
use wpoven_nobot.Challenge.World.{http_error, served, World, emit}

-- Bind, less its certificates and timeouts
pub record BindSettings : Type 0 where
  pub address : Text
  pub network : Text
  pub socket_mode : Text
  pub proxy : Bool
  pub passthrough : Bool

-- the network, and whether the listener reads the PROXY protocol
abbrev proxy_network : Text → Bool → Text × Bool
proxy_network network proxy =
    if network == ascii "proxy" then (ascii "tcp", true) else (network, proxy)

abbrev formatted_address : Text → Text → Text
formatted_address network address =
    if network == ascii "unix"
    then ascii "unix:" ++ address
    else if network == ascii "tcp"
    then ascii "http://localhost" ++ address
    else ascii "(" ++ network ++ ascii ") " ++ address

-- What setupListener calls: net.Listen, ParseUint in base 8, and os.Chmod.
pub record Sockets : Type 0 where
  pub listens : Text → Text → Bool
  pub parse_mode : Text → Option ℕ
  pub chmod : Text → ℕ → Bool

-- the permissions of a unix socket
abbrev socket_ready : Sockets → Text → Text → Text → Bool
socket_ready s network address socket_mode =
    if network == ascii "unix"
    then elim (s.parse_mode socket_mode) [ none ↦ false | some mode ↦ s.chmod address mode ]
    else true

-- setupListener: the text of the address, and whether the PROXY protocol is read; `none` is a panic
unfoldable pub setup_listener : Sockets → BindSettings → Option (Text × Bool)
setup_listener s b =
    let (network, proxy) = proxy_network b.network b.proxy in
    let text = formatted_address network b.address in
    if s.listens network b.address && socket_ready s network b.address b.socket_mode
    then some ((if proxy then text ++ ascii " +PROXY" else text), proxy)
    else none

abbrev bad_gateway : World → World
bad_gateway w = emit (http_error 502) w

-- the handler for the time before a server is there
abbrev passthrough_handler : List (Text × ℕ) → World → World
passthrough_handler backends w = elim (select_http_handler backends w.request.host) [
  | none ↦ bad_gateway w
  | some number ↦ emit (served number w.request) w
]

-- what the server starts with, and after each swap has
unfoldable pub serve_swapped : Option (World → World) → World → World
serve_swapped none w = bad_gateway w
serve_swapped (some handler) w = handler w

unfoldable pub first_handler : BindSettings → List (Text × ℕ) → Option (World → World)
first_handler b backends = if b.passthrough then some (passthrough_handler backends) else none

-- HostPolicy of newACMEManager: whether a host gets a certificate
unfoldable pub host_policy : List (Text × ℕ) → Text → Bool
host_policy backends host = elim (select_http_handler backends host) [
  | none ↦ false
  | some number ↦ true
]

-- While the first handler of a bind with passthrough is there, a request goes to a backend exactly if
-- its host gets a certificate.
host_policy-serve_swapped :
    (b : BindSettings) (backends : List (Text × ℕ)) (w : World)
    → b.passthrough ≡ true
    → serve_swapped (first_handler b backends) w ≡ (
        if host_policy backends w.request.host
        then elim (select_http_handler backends w.request.host) [
          | none ↦ w
          | some number ↦ emit (served number w.request) w
        ]
        else emit (http_error 502) w)
unfolding serve_swapped first_handler host_policy
host_policy-serve_swapped b backends w p = ground arith
