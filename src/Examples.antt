-- ===== src/Examples.antt =====
-- Concrete requests, registrations and servers that the theorems are applied to.
mod Challenges
mod Serving
mod Parts
mod Waiting
mod Starting
mod Commands
use wpoven_nobot.Base.{
  text_equality, nat_equality, Text, ascii, ℕ, ◌+◌, ◌*◌, true, false, none, [], ◌∷◌,
}
use wpoven_nobot.Challenge.Types.{blocking, result_none}
use wpoven_nobot.Time.{Time, second, hour, unix_epoch}
use wpoven_nobot.Url.{Url, query}
use wpoven_nobot.Net.{Addr, ip4}
use wpoven_nobot.Challenge.Token.{Draw}
use wpoven_nobot.Challenge.World.{Request, TokenChallenge, RequestData, World}
use wpoven_nobot.Challenge.Registration.{Key, Registration, Register, State}

abbrev pub at : Time
at = (unix_epoch + 1700000000) * second

abbrev pub example_address : Addr
example_address = ip4 (192 ∷ 0 ∷ 2 ∷ 7 ∷ [])

abbrev pub example_url : Url
example_url = record {
  scheme = [];
  opaque = [];
  user = none;
  host = [];
  path = ascii "/page";
  omit_host = false;
  raw_query = ascii "q=1&__goaway_id=7";
  fragment = [];
}

abbrev pub example_request : Request
example_request = record {
  method = ascii "GET";
  proto = ascii "HTTP/1.1";
  proto_major = 1;
  host = ascii "site.example";
  url = example_url;
  header = (ascii "User-Agent", ascii "client" ∷ []) ∷ [];
  cookies = (ascii ".go-away-state", ascii "sealed") ∷ (ascii "session", ascii "s") ∷ [];
  remote_addr = ascii "192.0.2.7:4000";
  tls = true;
  pusher = false;
  hijackable = false;
}

abbrev pub example_data : RequestData
example_data = record {
  id = ascii "id";
  time = at;
  challenge_verify = [];
  challenge_state = [];
  challenge_map = [];
  challenge_map_modified = false;
  remote_address = example_address;
  cookie_name = ascii ".go-away-state";
  issued_challenge = [];
  extra_headers = [];
  fp = [];
  query = [];
  opts = [];
}

abbrev pub example_world : World
example_world = record {
  request = example_request;
  request_data = example_data;
  response = [];
  set_cookies = [];
  events = [];
  now = at;
}

-- one token, for a challenge without a stored result
abbrev pub example_token : Key → TokenChallenge
example_token key = record {
  key = key;
  result = [];
  ok = true;
  expiry = 1700003600;
  not_before = 0;
  issued_at = 1700000000;
}

abbrev pub example_registration : ℕ → Text → Registration
example_registration id name = record {
  id = id;
  name = name;
  class = blocking;
  condition = none;
  path = ascii "/.well-known/challenge";
  duration = 24 * hour;
  verify = none;
  verify_probability = 0;
  key_headers = ascii "User-Agent" ∷ [];
  issue_challenge = λ w key expiry. (result_none, w);
}

abbrev pub example_register : Register
example_register =
    (1, example_registration 1 (ascii "first")) ∷ (2, example_registration 2 (ascii "second")) ∷ []

-- The hash and the seal are the simplest functions of their types.
abbrev pub example_state : State
example_state = record {
  settings = record {
    backends = (ascii "site.example", 0) ∷ [];
    main_name = ascii "go-away";
    main_version = ascii "1";
    client_ip_header = [];
    backend_ip_header = [];
    challenge_response_code = 418;
  };
  challenges = example_register;
  url_path = ascii "/.well-known";
  private_key = ascii "secret";
  sha256 = λ s. 7 ∷ [];
  seal = λ k t. none;
  unseal = λ k v. none;
  addr_string = λ a. ascii "192.0.2.7";
  cookie_domain = λ host. [];
}

abbrev pub example_draw : Draw
example_draw = record { expiry_now = at; not_before_now = at; roll = 0 }
