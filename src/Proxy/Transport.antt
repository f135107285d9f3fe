-- ===== src/Proxy/Transport.antt =====
-- How a backend is reached and how the server speaks: MakeReverseProxy and NewServer of
-- utils/http.go, RoundTrip of utils/unix.go, the transport that Create of lib/settings/backend.go
-- sets up, and the TLS of Server in lib/settings/bind.go.
use wpoven_nobot.Base.{
  text_equality, if◌then◌else◌, is_empty, Text, ascii, ◌==◌, ℕ, ◌≡◌, Bool, true, false, not, ◌&&◌,
  ◌||◌, Option, none, some, [], refl,
}
use wpoven_nobot.Url.{Url}
use wpoven_nobot.Policy.Networks.{◌>>=◌}
use wpoven_nobot.Challenge.World.{Request}
use mathlib.Core.Path.{subst}

pub data Dial : Type 0 where
  dial_unix : Text → Dial
  dial_go_dns dial_plain : Dial

-- httputil.ReverseProxy and its transport; durations in nanoseconds
pub record Transport : Type 0 where
  pub upstream : Url
  pub dial : Dial
  pub dial_timeout : ℕ
  pub handshake_timeout : ℕ
  pub idle_timeout : ℕ
  pub response_timeout : ℕ
  pub continue_timeout : ℕ
  pub force_http2 : Bool
  pub skip_verify : Bool
  pub server_name : Text

-- What Create of a Backend reads, less what its director does; `defaults` is the transport that the
-- package net/http has.
pub record BackendTransport : Type 0 where
  pub target : Text
  pub go_dns : Bool
  pub dial_wait : ℕ
  pub handshake_wait : ℕ
  pub idle_wait : ℕ
  pub response_wait : ℕ
  pub continue_wait : ℕ
  pub http2_enabled : Bool
  pub tls_skip_verify : Bool
  pub tls_host : Text

-- MakeReverseProxy: the path of a unix URL is that of its socket and no part of requests
unfoldable pub make_reverse_proxy :
    (Text → Option Url) → Transport → Text → Bool → ℕ → Option Transport
make_reverse_proxy parse_url defaults target go_dns wait = parse_url target >>= λ u.
    let t = record defaults {
      skip_verify = false;
      server_name = [];
      upstream = u;
      dial_timeout = wait;
    } in
    if u.scheme == ascii "unix"
    then some (record t { upstream = record u { path = [] }; dial = dial_unix u.path })
    else some (record t { dial = if go_dns then dial_go_dns else dial_plain })

-- Create, as far as the transport
unfoldable pub create_transport :
    (Text → Option Url) → Transport → BackendTransport → Option Transport
unfolding make_reverse_proxy
create_transport parse_url defaults b =
    make_reverse_proxy parse_url defaults b.target b.go_dns b.dial_wait >>= λ t. some (record t {
      handshake_timeout = b.handshake_wait;
      idle_timeout = b.idle_wait;
      response_timeout = b.response_wait;
      continue_timeout = b.continue_wait;
      force_http2 = b.http2_enabled || t.force_http2;
      skip_verify = b.tls_skip_verify || t.skip_verify;
      server_name = if is_empty b.tls_host then t.server_name else b.tls_host;
    })

-- UnixRoundTripper.RoundTrip: the request that the transport sends
unfoldable pub unix_request : Request → Request
unix_request r =
    let host = if is_empty r.host then ascii "localhost" else r.host in
    record r { host = host; url = record r.url { host = host; scheme = ascii "http" } }

-- the TLS of Server
pub data ServerTls : Type 0 where
  plain_server : ServerTls
  acme_server : Text → Text → ServerTls
  certificate_server : Text → Text → ServerTls

-- What Server reads of a Bind, and what it asks of the outside: the URL of Let's Encrypt, MkdirAll,
-- and whether a pair of files holds a certificate and its key.
pub record TlsSettings : Type 0 where
  pub acme_directory : Text
  pub certificate_file : Text
  pub key_file : Text
  pub lets_encrypt_url : Text
  pub make_cache : Text → Bool
  pub loads_pair : Text → Text → Bool

abbrev acme_url : TlsSettings → Text
acme_url b =
    if b.acme_directory == ascii "letsencrypt" then b.lets_encrypt_url else b.acme_directory

-- the first part of Server; `none` is an error
unfoldable pub server_tls : TlsSettings → Text → Option ServerTls
server_tls b cache =
    if not (is_empty b.acme_directory)
    then (if is_empty cache || b.make_cache cache
        then some (acme_server (acme_url b) cache)
        else none)
    else if not (is_empty b.certificate_file) && not (is_empty b.key_file)
    then (if b.loads_pair b.certificate_file b.key_file
        then some (certificate_server b.certificate_file b.key_file)
        else none)
    else some plain_server

-- NewServer: without TLS it speaks HTTP/1 and unencrypted HTTP/2, with it the fingerprints of clients
-- are read
unfoldable pub reads_fingerprints : ServerTls → Bool
reads_fingerprints plain_server = false
reads_fingerprints _ = true

-- the upstream of a socket has no path
abbrev HasSocket : Text → Option Transport → Type 0
HasSocket path none = Unit
HasSocket path (some t) = (t.upstream.path ≡ []) × (t.dial ≡ dial_unix path)

-- The path of a unix URL is dialled, and is no part of the URL that requests are sent to.
create_transport_unix :
    (parse_url : Text → Option Url) (defaults t : Transport) (b : BackendTransport) (u : Url)
    → parse_url b.target ≡ some u
    → u.scheme ≡ ascii "unix"
    → create_transport parse_url defaults b ≡ some t
    → (t.upstream.path ≡ []) × (t.dial ≡ dial_unix u.path)
unfolding create_transport make_reverse_proxy
create_transport_unix parse_url defaults t b u parsed scheme e =
    subst (HasSocket u.path) e (rw (parsed, scheme) (refl, refl))
