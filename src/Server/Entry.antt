-- ===== src/Server/Entry.antt =====
-- CreateRequestData of lib/challenge/data.go and ServeHTTP of lib/http.go: what stands before
-- handleRequest.
use wpoven_nobot.Mime
use wpoven_nobot.Hex
use wpoven_nobot.Base.{
  text_equality, if◌then◌else◌, is_empty, Text, ascii, false, Option, none, some, List, [], ◌∷◌,
  ◌++◌,
}
use wpoven_nobot.Rule.{Rules}
use wpoven_nobot.Query.{get_value}
use wpoven_nobot.Text.{before}
use wpoven_nobot.Time.{Time}
use wpoven_nobot.Net.{Addr}
use wpoven_nobot.Server.{default_cookie_prefix, handle_request}
use wpoven_nobot.Challenge.Query.{query_arg_challenge, delete_args}
use wpoven_nobot.Challenge.Token.{Draw, with_data}
use wpoven_nobot.Challenge.State.{cookie_host_key, evaluate_challenges}
use wpoven_nobot.Challenge.World.{Request, RequestData, World}
use wpoven_nobot.Challenge.Registration.{State}
use wpoven_nobot.Url.{query}

-- GetRequestAddress of utils/http.go; `parse` is ParseAddrPort, or else ParseAddr, or the zero value
unfoldable pub get_request_address : (Text → Addr) → Request → Text → Addr
get_request_address parse r client_header =
    let given = if is_empty client_header then r.remote_addr else Mime.get client_header r.header in
    let first_one = before b',' given in
    parse (if is_empty first_one then r.remote_addr else first_one)

-- the map of fingerprints
abbrev fingerprints : Option Text → Option Text → List (Text × Text)
fingerprints none none = []
fingerprints (some ja3n) none = (ascii "ja3n", ja3n) ∷ []
fingerprints none (some ja4) = (ascii "ja4", ja4) ∷ []
fingerprints (some ja3n) (some ja4) = (ascii "ja3n", ja3n) ∷ (ascii "ja4", ja4) ∷ []

-- CreateRequestData, with the random identifier, the connection's fingerprints and the clock
unfoldable pub create_request_data :
    State → (Text → Addr) → Text → Option Text → Option Text → Time → Request → World
unfolding get_request_address cookie_host_key
create_request_data state parse id ja3n ja4 now r =
    let q = query r.url in
    let d : RequestData = record {
      id = id;
      time = now;
      challenge_verify = [];
      challenge_state = [];
      challenge_map = [];
      challenge_map_modified = false;
      remote_address = get_request_address parse r state.settings.client_ip_header;
      cookie_name = [];
      issued_challenge = get_value query_arg_challenge q;
      extra_headers = [];
      fp = fingerprints ja3n ja4;
      query = delete_args q;
      opts = [];
    } in
    let w : World = record {
      request = r;
      request_data = d;
      response = [];
      set_cookies = [];
      events = [];
      now = now;
    } in
    with_data w (record d {
      cookie_name = default_cookie_prefix ++ Hex.encode (cookie_host_key state w) ++ ascii "-state";
    })

-- ServeHTTP at a path that setupRoutes gives to handleRequest
unfoldable pub serve : State → Rules → (Text → Draw) → World → World
unfolding evaluate_challenges handle_request
serve state rules draws w = handle_request state rules (evaluate_challenges state draws w)
