-- ===== src/Proxy/Director/Laws.antt =====
-- What a backend of lib/settings/backend.go is told of a client.
use wpoven_nobot.Mime
use wpoven_nobot.Base.{
  text_equality, is_empty, Text, lookup-insert_self, ◌≡◌, refl, true, false, some, [], ◌∷◌,
  if◌then◌else◌, ap, ◌∙◌, Bool,
}
use wpoven_nobot.Mime.{Header}
use wpoven_nobot.Net.{Addr, unmap}
use wpoven_nobot.Challenge.Headers.{request_headers}
use wpoven_nobot.Challenge.World.{Request, RequestData}
use wpoven_nobot.Challenge.Registration.{State}
use wpoven_nobot.Proxy.Director.{BackendSettings, used_ip_header, told_host, direct}

get-set_header : (name value : Text) (h : Header) → Mime.get name (Mime.set name value h) ≡ value
unfolding Mime.get Mime.set
get-set_header name value h =
    rw (lookup-insert_self (Mime.canonical_mime_header_key name) (value ∷ []) h) refl

told_host-header : (host : Text) (r : Request) → (told_host host r).header ≡ r.header
told_host-header host r = either (is_empty host)
  where
    either : (e : Bool) → (if e then r else record r { host = host }).header ≡ r.header
    either true = refl
    either false = refl

-- For a backend with a header for addresses, and a request for which RequestHeaders does not panic:
-- the proxy's own director gets, if the backend is transparent, the request as it is, but for the host
-- that its settings name, with all the headers that rules have put on it; if it is not, a request that
-- has the address of the client under that header, whatever stood there before.
pub direct_told :
    (state : State) (b : BackendSettings) (d : RequestData) (ip : Addr) (r : Request)
    (told : Header)
    → is_empty (used_ip_header b) ≡ false
    → request_headers state d r.header ≡ some told
    → (direct state (record b { transparent = true }) (λ q. q) (some d) (some ip) r
        ≡ some (told_host b.backend_host r))
      × ((told_host b.backend_host r).header ≡ r.header)
      × ((q : Request) × (direct state
              (record b { transparent = false })
              (λ q. q)
              (some d)
              (some ip)
              r
            ≡ some q)
          × (Mime.get (used_ip_header b) q.header ≡ state.addr_string (unmap ip)))
unfolding direct
direct_told state b d ip r told named ok =
    let name = used_ip_header b in
    let address = state.addr_string (unmap ip) in
    let told' = record r { header = Mime.set name address told } in
    rw (named, ok)
      (
        refl,
        told_host-header b.backend_host r,
        (
          told_host b.backend_host told',
          refl,
          ap (Mime.get name) (told_host-header b.backend_host told')
              ∙ get-set_header name address told,
        ),
      )
