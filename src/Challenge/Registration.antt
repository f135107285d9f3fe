-- ===== src/Challenge/Registration.antt =====
-- Registration and Register of lib/challenge/register.go, StateSettings of lib/policy/state.go, and
-- the parts of State of lib/state.go that requests read.
use wpoven_nobot.Base.{
  nat_equality, text_equality, if◌then◌else◌, Text, ◌==◌, lookup, ℕ, Option, none, some, List, [],
  ◌∷◌,
}
use wpoven_nobot.Time.{Time, Duration}
use wpoven_nobot.Net.{Addr}
use wpoven_nobot.Redirect.{select_http_handler}
use wpoven_nobot.Challenge.Types.{Class, VerifyResult, Err, Program}
use wpoven_nobot.Challenge.World.{Request, Token, World}

-- a key of `KeySize` bytes
abbrev pub Key : Type 0
Key = Text

abbrev pub VerifyFunc : Type 0
VerifyFunc = Key → Text → Request → VerifyResult × Option Err

-- `verify_probability` is in units of 2 ^ -53, the grain of `Float64`, rounded up
pub record Registration : Type 0 where
  pub id : ℕ
  pub name : Text
  pub class : Class
  pub condition : Option Program
  pub path : Text
  pub duration : Duration
  pub verify : Option VerifyFunc
  pub verify_probability : ℕ
  pub key_headers : List Text
  pub issue_challenge : World → Key → Time → VerifyResult × World

-- A map from identifiers; Go goes through it in any order, and here its list has that order.
abbrev pub Register : Type 0
Register = List (ℕ × Registration)

-- StateSettings; a backend is known by a number
pub record Settings : Type 0 where
  pub backends : List (Text × ℕ)
  pub main_name : Text
  pub main_version : Text
  pub client_ip_header : Text
  pub backend_ip_header : Text
  pub challenge_response_code : ℕ

-- The server's State, with what it calls of other libraries: SHA-256, the sealed and signed tokens
-- of the cookie, under their key, the text form of an address, and the domain that getValidHost of
-- utils/cookie.go and the tests on its answer find for a host, empty for none.
pub record State : Type 0 where
  pub settings : Settings
  pub challenges : Register
  pub url_path : Text
  pub private_key : Text
  pub sha256 : Text → Text
  pub seal : Text → Token → Option Text
  pub unseal : Text → Text → Option Token
  pub addr_string : Addr → Text
  pub cookie_domain : Text → Text

-- Register.Get
unfoldable pub get_by_id : ℕ → Register → Option Registration
get_by_id id r = lookup id r

-- Register.GetByName: the first of that name in the order of the map
unfoldable pub get_by_name : Text → Register → Option (Registration × ℕ)
get_by_name name [] = none
get_by_name name ((id, c) ∷ r) = if c.name == name then some (c, id) else get_by_name name r

-- State.GetBackend
unfoldable pub get_backend : State → Text → Option ℕ
unfolding select_http_handler
get_backend state host = select_http_handler state.settings.backends host
