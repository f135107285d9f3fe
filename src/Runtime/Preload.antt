-- ===== src/Runtime/Preload.antt =====
-- lib/challenge/preload-link/preload-link.go: a link that the client is told to load early.
pub mod Answer
use wpoven_nobot.Mime
use wpoven_nobot.Base.{
  text_equality, ltb, if◌then◌else◌, Text, ascii, ◌==◌, delete, not, ◌&&◌, ◌||◌, ◌∷◌, ◌++◌,
}
use wpoven_nobot.Query.{parse_raw_query, encode_raw_query}
use wpoven_nobot.Time.{Time}
use wpoven_nobot.Url.{Url, string}
use wpoven_nobot.Challenge.Query.{query_arg_redirect}
use wpoven_nobot.Challenge.Types.{VerifyResult, result_none, result_fail, result_skip}
use wpoven_nobot.Challenge.World.{Request, write_header, World, emit, set_header}
use wpoven_nobot.Challenge.Verify.{issue_key, verify_url}
use wpoven_nobot.Challenge.Registration.{Key, Registration}
use wpoven_nobot.Runtime.Page.{unix_milli}

-- GetRequestScheme of utils/http.go
unfoldable pub get_request_scheme : Request → Text
get_request_scheme r =
    let proto = Mime.get (ascii "X-Forwarded-Proto") r.header in
    if proto == ascii "http" || proto == ascii "https"
    then proto
    else if r.tls
    then ascii "https"
    else ascii "http"

-- the absolute URL of the link, its redirect taken off
unfoldable pub preload_url : Registration → Text → World → Url
unfolding get_request_scheme
preload_url reg token w =
    let uri = verify_url reg token (unix_milli w.now) w in
    record uri {
      raw_query = encode_raw_query (delete query_arg_redirect (parse_raw_query uri.raw_query));
      scheme = get_request_scheme w.request;
      host = w.request.host;
    }

abbrev link_header : Text → Text
link_header uri =
    b'<' ∷ uri
    ++ ascii ">; rel="
    ++ 34 ∷ ascii "preload"
    ++ 34 ∷ ascii "; as="
    ++ 34 ∷ ascii "style"
    ++ 34 ∷ ascii "; fetchpriority=high"

-- the answer to what Await returned: VerifyResultNone is its timeout
abbrev pub after_await : VerifyResult → VerifyResult
after_await result_none = result_fail
after_await r = r

-- IssueChallenge; `await` is Await under the key's text, with the deadline of the parameters
unfoldable pub issue_preload :
    (Text → VerifyResult) → Registration → World → Key → Time → VerifyResult × World
unfolding preload_url
issue_preload await reg w key expiry =
    let uri = string (preload_url reg (issue_key key) w) in
    let hinted = emit (write_header 103) (set_header (ascii "Link") (link_header uri) w) in
    if ltb w.request.proto_major 2 && not w.request.pusher then (result_skip, w) else (
      after_await (await (issue_key key)),
      record hinted { response = Mime.del (ascii "Link") hinted.response },
    )
