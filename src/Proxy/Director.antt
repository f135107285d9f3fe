-- ===== src/Proxy/Director.antt =====
-- Create of lib/settings/backend.go: what the reverse proxy of a backend does to a request before its
-- own director. The transport and its timeouts are left out.
pub mod Laws
use wpoven_nobot.Mime
use wpoven_nobot.Base.{
  text_equality, if◌then◌else◌, is_empty, Text, ascii, ◌==◌, Bool, not, ◌||◌, Option, none, some,
  [],
}
use wpoven_nobot.Policy.Networks.{◌>>=◌}
use wpoven_nobot.Mime.{Header}
use wpoven_nobot.Net.{Addr, unmap}
use wpoven_nobot.Challenge.Headers.{request_headers}
use wpoven_nobot.Challenge.World.{Request, RequestData}
use wpoven_nobot.Challenge.Registration.{State}

-- what the director of a Backend reads
pub record BackendSettings : Type 0 where
  pub backend_host : Text
  pub ip_header : Text
  pub transparent : Bool

-- `-` stands for no header
abbrev pub used_ip_header : BackendSettings → Text
used_ip_header b = if b.ip_header == ascii "-" then [] else b.ip_header

abbrev told_data : State → Option RequestData → Header → Option Header
told_data state none h = some h
told_data state (some d) h = request_headers state d h

abbrev told_address : State → Text → Option Addr → Header → Header
told_address state name none h = h
told_address state name (some ip) h =
    if is_empty name then h else Mime.set name (state.addr_string (unmap ip)) h

-- the headers, of which a transparent backend gets none
abbrev told_headers :
    State → BackendSettings → Option RequestData → Option Addr → Header → Option Header
told_headers state b req ip h =
    if b.transparent
    then some h
    else told_data state req h >>= λ told. some (told_address state (used_ip_header b) ip told)

abbrev pub told_host : Text → Request → Request
told_host host r = if is_empty host then r else record r { host = host }

-- the director of the proxy, for the data and the address that the request's context has; `inner` is
-- the one that it had, `none` a panic of RequestHeaders
unfoldable pub direct :
    State
    → BackendSettings
    → (Request → Request)
    → Option RequestData
    → Option Addr
    → Request
    → Option Request
direct state b inner req ip r =
    if not (is_empty (used_ip_header b)) || not (is_empty b.backend_host) || not b.transparent
    then (told_headers state b req ip r.header >>= λ h.
        some (inner (told_host b.backend_host (record r { header = h }))))
    else some (inner r)
